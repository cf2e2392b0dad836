-- ===== src/Upload/Handlers/Outcomes/Creates.antt =====
-- What CreateUploadSessionHandler.Handle has done when it returns.
use zhi_file_service_go.Common.{trim, add, pos, [], ◌≡◌, none, some, Text}
use zhi_file_service_go.Result.{ok, accepted}
use zhi_file_service_go.Upload.Status.{initiated}
use zhi_file_service_go.Upload.Validation.Facts.{IsValid}
use zhi_file_service_go.Upload.Session.{Session}
use zhi_file_service_go.Upload.Auth.{ensure_session_access}
use zhi_file_service_go.Upload.Rows.{SessionRow, to_row, from_row}
use zhi_file_service_go.Upload.Tables.{insert_row, find_reusable_row}
use zhi_file_service_go.Upload.World.{World, Env, settled}
use zhi_file_service_go.Upload.View.{UploadSession, Headers, from_session}
use zhi_file_service_go.Upload.Handlers.Create.{
  CreateUploadSessionConfig, CreateUploadSessionCommand, reusable_query,
}

-- The session is a new one of the command.
pub record IsMadeFor (config : CreateUploadSessionConfig) (command : CreateUploadSessionCommand)
    (s : Session) : Type 0 where
  pub tenant : s.tenant_id ≡ trim command.auth.tenant_id
  pub owner : s.owner_id ≡ trim command.auth.subject_id
  pub file_name : s.file_name ≡ trim command.file_name
  pub content_type : s.content_type ≡ trim command.content_type
  pub size : s.size_bytes ≡ command.size_bytes
  pub mode : s.mode ≡ command.upload_mode
  pub status : s.status ≡ initiated
  pub nothing_done : s.completed_parts ≡ pos 0
  pub no_file : s.file_id ≡ []
  pub no_token : s.completion_token ≡ []
  pub expiry : s.expires_at ≡ add s.created_at config.session_ttl

module _ (env : Env) where
  -- The second statement, FindReusable, comes with nothing written since the first.
  pub record Looks (w looked_at : World) : Type 0 where
    pub unwritten : looked_at.tables ≡ (settled env w).tables

  -- No session can be used again: a new one of the command is inserted, and nothing else is written.
  pub record CreatesNew (config : CreateUploadSessionConfig) (command : CreateUploadSessionCommand)
      (w : World) (r : UploadSession) (v : World) : Type 0 where
    pub looked_at : World
    pub looks : Looks w looked_at
    pub none_found :
        find_reusable_row (reusable_query command) (settled env looked_at).tables ≡ none
    pub session : Session
    pub valid : IsValid session
    pub made : IsMadeFor config command session
    pub inserting : World
    pub unwritten : inserting.tables ≡ (settled env looked_at).tables
    pub tables : v.tables ≡ insert_row (to_row session) (settled env inserting).tables
    pub url : Text
    pub headers : Headers
    pub answers : r ≡ from_session session url headers

  -- The answer is of a session that FindReusable found, and nothing is written.
  pub record Reuses (command : CreateUploadSessionCommand) (w : World) (r : UploadSession)
      (v : World) : Type 0 where
    pub looked_at : World
    pub looks : Looks w looked_at
    pub session : Session
    pub row : SessionRow
    pub found : find_reusable_row (reusable_query command) (settled env looked_at).tables ≡ some row
    pub read : from_row row ≡ ok session
    pub allowed : ensure_session_access command.auth session ≡ accepted
    pub url : Text
    pub headers : Headers
    pub answers : r ≡ from_session session url headers
    pub tables : v.tables ≡ (settled env looked_at).tables
