-- ===== src/Config.antt =====
-- internal/config/config.go: the settings that the panel and the agent read from the environment.
pub mod Laws
use motekarindo_panel.Base.{Bool, true, false, ◌||◌, not, if◌then◌else◌}
use motekarindo_panel.Base.Text.{Text, txt, same, is_empty, trim_space, to_lower}
use motekarindo_panel.Base.Error.{plain, Result, ok, err, refuse, ◌>>◌}

pub record PanelConfig : Type 0 where
  pub http_addr : Text
  pub agent_socket_path : Text
  pub database_url : Text
  pub migrations_dir : Text
  pub environment : Text
  pub log_level : Text
  pub secure_cookies : Bool

pub record AgentConfig : Type 0 where
  pub socket_path : Text
  pub environment : Text
  pub log_level : Text

unfoldable pub is_yes : Text → Bool
unfolding same
is_yes s = same s (txt "1") || same s (txt "true") || same s (txt "yes") || same s (txt "on")

unfoldable pub is_no : Text → Bool
unfolding same
is_no s = same s (txt "0") || same s (txt "false") || same s (txt "no") || same s (txt "off")

-- `getenv` is os.Getenv.
module _ (getenv : Text → Text) where
  unfoldable pub value : Text → Text → Text
  unfolding trim_space
  value key fallback = let v = trim_space (getenv key) in if is_empty v then fallback else v

  unfoldable pub bool_value : Text → Bool → Bool
  unfolding trim_space to_lower is_yes is_no
  bool_value key fallback =
      let raw = trim_space (getenv key) in
      if is_empty raw
      then fallback
      else if is_yes (to_lower raw)
      then true
      else if is_no (to_lower raw)
      then false
      else fallback

  unfoldable pub panel_config : PanelConfig
  panel_config = record {
    http_addr = value (txt "MOTEKAR_PANEL_ADDR") (txt ":8080");
    agent_socket_path = value (txt "MOTEKAR_AGENT_SOCKET") (txt ".cache/motekar-agent.sock");
    database_url = trim_space (getenv (txt "MOTEKAR_DATABASE_URL"));
    migrations_dir = trim_space (getenv (txt "MOTEKAR_MIGRATIONS_DIR"));
    environment = value (txt "MOTEKAR_ENV") (txt "development");
    log_level = value (txt "MOTEKAR_LOG_LEVEL") (txt "info");
    secure_cookies = bool_value (txt "MOTEKAR_SECURE_COOKIES") false;
  }

  unfoldable pub load_panel : Result PanelConfig
  load_panel = do
    refuse (is_empty panel_config.http_addr) (plain (txt "MOTEKAR_PANEL_ADDR cannot be empty"))
    ok panel_config

  unfoldable pub agent_config : AgentConfig
  agent_config = record {
    socket_path = value (txt "MOTEKAR_AGENT_SOCKET") (txt ".cache/motekar-agent.sock");
    environment = value (txt "MOTEKAR_ENV") (txt "development");
    log_level = value (txt "MOTEKAR_LOG_LEVEL") (txt "info");
  }

  unfoldable pub load_agent : Result AgentConfig
  load_agent = do
    refuse (not (is_empty (trim_space (getenv (txt "MOTEKAR_AGENT_ADDR")))))
        (plain (txt "MOTEKAR_AGENT_ADDR is no longer supported; use MOTEKAR_AGENT_SOCKET"))
    refuse (is_empty agent_config.socket_path) (plain (txt "MOTEKAR_AGENT_SOCKET cannot be empty"))
    ok agent_config
