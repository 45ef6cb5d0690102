-- ===== src/Compose/Images.antt =====
-- compose/images.ts: an image of the database, and when two images are the same.
pub mod Tasks
use balena_supervisor.Common.{
  ℕ, String, Bool, ◌&&◌, ◌||◌, Option, none, some, str_eq, same_option, is_some,
}
use balena_supervisor.Common.Texts.{second_part}
use balena_supervisor.Compose.Service.{Service}

-- `name` is none where the code carries a null name on through an unchecked `imageName!`.
-- The fields `status` and `downloadProgress` are not columns of the image table.
pub record Image : Type 0 where
  pub id : Option ℕ
  pub name : Option String
  pub app_id : ℕ
  pub app_uuid : Option String
  pub service_id : ℕ
  pub service_name : String
  pub image_id : ℕ
  pub release_id : ℕ
  pub commit : String
  pub docker_image_id : Option String

unfoldable pub image_from_service : Service → Image
image_from_service s = record {
  id = none;
  name = s.image_name;
  app_id = s.app_id;
  app_uuid = s.app_uuid;
  service_id = s.service_id;
  service_name = s.service_name;
  image_id = s.image_id;
  release_id = s.release_id;
  commit = s.commit;
  docker_image_id = none;
}

abbrev digest : Option String → Option String
digest none = none
digest (some name) = second_part b'@' name

unfoldable pub has_same_digest : Option String → Option String → Bool
has_same_digest name1 name2 =
    is_some (digest name1) && same_option str_eq (digest name1) (digest name2)

-- isSameImage, of the names of two images
unfoldable pub is_same_image : Option String → Option String → Bool
unfolding has_same_digest
is_same_image name1 name2 = same_option str_eq name1 name2 || has_same_digest name1 name2
