-- ===== src/Library/Tests.antt =====
-- Locks of two apps, on a host with a service in each.
use balena_supervisor.Common.{
  ℕ, String, Bool, true, false, List, [], ◌∷◌, some, none, inl, inr, ◌≡◌, refl,
}
use balena_supervisor.Library.Locks.{
  Locks, Outcome, done, failed, updates_locked, Host, lock_files_on_host, dispose, lock,
}
use balena_supervisor.Library.Locks.OnDisk.{IsReleased, lock-IsReleased}
use balena_supervisor.Library.Locks.Kept.{IsForeign, lock-IsForeign}

abbrev host : Host
host = record {
  root = "/mnt/root";
  base_lock_dir = "/locks";
  refuses = λ path. false;
  stays = λ path. false;
  folders = λ id. some ("web" ∷ []);
}

abbrev nothing : Locks → Outcome ℕ × Locks
nothing s = (done 7, s)

abbrev empty : Locks
empty = record { files = []; taken = []; held = [] }

-- a file that a user has put in the folder of app 2
abbrev user_lock : String
user_lock = "/mnt/root/locks/2/web/updates.lock"

abbrev locked : Locks
locked = record { files = user_lock ∷ []; taken = []; held = [] }

-- the locks of app 1 are taken, the one of app 2 is not, and nothing is left but the user's file
refused :
    lock host (2 ∷ 1 ∷ []) false false (some false) nothing locked
    ≡ (failed (updates_locked 2 "web"), locked)
unfolding lock lock_files_on_host balena_supervisor.Common.Sort.sort_by
    balena_supervisor.Common.Texts.text_leb balena_supervisor.Common.Texts.decimal
refused = refl

lock-IsReleased_example :
    IsReleased host 2 locked (lock host (2 ∷ 1 ∷ []) false false (some false) nothing locked).1
lock-IsReleased_example =
    lock-IsReleased host 2 (2 ∷ 1 ∷ []) false (some false) nothing locked (inl refl)
      (record { held = tt; taken = tt }) (λ path t h. h)

lock-IsForeign_example :
    IsForeign user_lock (lock host (2 ∷ 1 ∷ []) false false (some false) nothing locked).1
lock-IsForeign_example =
    lock-IsForeign host user_lock (2 ∷ 1 ∷ []) false nothing locked (λ t h. h)
      (record { exists = refl; not_taken = refl })

-- The release of app 1 takes the lockfile of app 12, too, whose folder begins with the same text.
abbrev lock_of_12 : String
lock_of_12 = "/mnt/root/locks/12/web/updates.lock"

other_app_unlocked :
    dispose host 1 (record { files = lock_of_12 ∷ []; taken = lock_of_12 ∷ []; held = 1 ∷ 12 ∷ [] })
    ≡ record { files = []; taken = []; held = 12 ∷ [] }
unfolding dispose balena_supervisor.Common.Texts.decimal
other_app_unlocked = refl
