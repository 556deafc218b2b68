-- ===== src/Guards.antt =====
-- The hooks that decide on the model's tool calls: src/assistant/bridge/hooks.py. `Paths` are the
-- file tools, `Argv` the argument lists of gh, git clone and uv sync, `Bash` the commands, `Web` the
-- fetches, and `Audit` what is written to the logs.
pub mod Paths
pub mod Argv
pub mod Bash
pub mod Web
pub mod Audit
mod Examples
use xone_assistant.Prelude.{
  ℕ, Bool, true, false, ◌&&◌, Option, none, some, List, [], ◌∷◌, Text, text_eq,
}

-- Why a call is denied, a constructor for each message.
pub data Reason : Type 0 where
  empty_command unparseable empty_argv not_in_allowlist slip_guard : Reason
  not_gh only_auth_status subcommand_not_allowed several_endpoints endpoint_not_allowed
        header_missing :
      Reason
  header_not_allowed flag_not_allowed endpoint_missing : Reason
  clone_needs_url only_depth_one url_not_allowed clone_needs_dest outside_root : Reason
  uv_needs_subcommand directory_missing directory_needs_value not_tools_or_skills : Reason
  cat_without_arguments cat_flags invalid_path file_path_missing : Reason
  malformed_url empty_host literal_blocked resolved_to_blocked : Reason

pub data Decision : Type 0 where
  allow : Decision
  deny : Reason → Decision

-- The files as the hooks see them: the parts of the resolved project root, and those of the path
-- that a text stands for, resolved against that root after `expanduser`; none on OSError.
pub record Files : Type 0 where
  pub root : List Text
  pub place : Text → Option (List Text)

-- Path.is_relative_to, on parts
unfoldable pub is_relative_to : List Text → List Text → Bool
is_relative_to path [] = true
is_relative_to [] (part ∷ root) = false
is_relative_to (part ∷ path) (part' ∷ root) = text_eq part part' && is_relative_to path root

-- A verdict as a decision: `none` lets the call pass.
abbrev pub decide : Option Reason → Decision
decide none = allow
decide (some reason) = deny reason
