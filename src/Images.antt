-- ===== src/Images.antt =====
-- The documents of the update server that the code reads: `Index`, `UpdateFull` and `UpdateFile`
-- of github.com/lxc/incus-os/incus-osd/api/images, with the fields that the code uses. The library
-- is not part of the repository; only the shape of its records is taken from it.
use incusos_builder.Base.{List}
use incusos_builder.Base.Int.{ℤ}
use incusos_builder.Base.Text.{Text}

-- `UpdateFileType`: the constants that the code names, and any other text.
pub data FileType : Type 0 where
  undefined_type image_iso image_raw image_manifest changelog : FileType
  update_efi update_usr update_usr_verity update_usr_verity_signature : FileType
  update_secureboot application : FileType
  other_type : Text → FileType

pub record UpdateFile : Type 0 where
  pub architecture : Text
  pub filename : Text
  pub sha256 : Text
  pub size : ℤ
  pub file_type : FileType

pub record UpdateFull : Type 0 where
  pub version : Text
  pub channels : List Text
  pub files : List UpdateFile

pub record Index : Type 0 where
  pub updates : List UpdateFull
