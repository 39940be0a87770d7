-- ===== src/Types.antt =====
-- The vault's data: web/src/types.ts. Of a folder and of a credential the records keep the
-- fields that the export format, the parser and travel mode read or write; the other optional
-- fields of the source's interfaces (icons, passkeys, notes, cards, custom fields) are not
-- touched by the modelled code. An optional field is an `Option`, and a credential's `id` is its
-- text, `String(c.id)`.
use pwdnow_password_manager.Prelude.{ℕ, List, Option}

pub record Folder : Type 0 where
  pub id : List ℕ
  pub label : List ℕ
  pub description : Option (List ℕ)

pub data CredentialType : Type 0 where
  login passkey secure_note payment_card : CredentialType

pub record Credential : Type 0 where
  pub id : List ℕ
  pub service : List ℕ
  pub url : List ℕ
  pub username : List ℕ
  pub password : Option (List ℕ)
  pub status : List ℕ
  pub status_color : List ℕ
  pub logo : List ℕ
  pub folder_id : List ℕ
  pub tags : Option (List (List ℕ))
  pub otp_secret : Option (List ℕ)
  pub description : Option (List ℕ)
  pub credential_type : Option CredentialType
