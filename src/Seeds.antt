-- ===== src/Seeds.antt =====
-- The seed sections of github.com/lxc/incus-os/incus-osd/api/seed, which is not part of the
-- repository: the fields that the code reads or sets, and for all others of a section one opaque
-- `body` that is passed on.
use incusos_builder.Base.{List, Option}
use incusos_builder.Base.Text.{Text}

-- A section of which the code touches only the version.
pub record Section : Type 0 where
  pub version : Text
  pub body : Text

pub record Application : Type 0 where
  pub name : Text

pub record Applications : Type 0 where
  pub version : Text
  pub applications : List Application

pub record InstallTarget : Type 0 where
  pub sort_order : Text
  pub body : Text

pub record Install : Type 0 where
  pub version : Text
  pub target : Option InstallTarget
  pub body : Text

pub record UpdateSeed : Type 0 where
  pub version : Text
  pub check_frequency : Text
  pub body : Text

pub record Security : Type 0 where
  pub version : Text
  pub encryption_recovery_keys : List Text
  pub body : Text
