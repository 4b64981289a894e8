-- ===== src/Daemon.antt =====
-- src/daemon.rs: the property list that launchd runs the agent by, the refusal of configurations whose
-- credentials launchd cannot provide. The commands are in the children.
pub mod Escape
pub mod Launchd
pub mod Stop
pub mod Start
pub mod Logs
use tapwarden.Base.{
  ℕ, zero, suc, Bool, true, false, not, Option, none, some, List, [], ◌∷◌, ◌++◌, Text, text,
  replace, decimal, Result, ok, err, Error, Bytes, expect, bail_if, if◌then◌else◌,
}
use tapwarden.Secret.Endpoint.{context_text}
use tapwarden.Config.{
  Backend, bws, vaultwarden, CredentialSource, env, keychain, VaultwardenConfig, Config,
}
use tapwarden.Agent.Socket.{Removed, removed, missing, failed}

abbrev pub label : Text
label = text "com.tapwarden.agent"

unfoldable pub gui_domain : ℕ → Text
gui_domain uid = text "gui/" ++ decimal uid

unfoldable pub service_target : ℕ → Text
service_target uid = text "gui/" ++ (decimal uid ++ b'/' ∷ label)

unfoldable pub xml_escape : Text → Text
unfolding replace
xml_escape s =
    replace b'>' (text "&gt;") (replace b'<' (text "&lt;") (replace b'&' (text "&amp;") s))

-- A line of the template, behind its tabs.
abbrev line : ℕ → Text → Text
line zero s = s ++ (10 ∷ [])
line (suc n) s = 9 ∷ line n s

unfoldable pub config_args : Option Text → Text
unfolding xml_escape
config_args none = []
config_args (some path) =
    10
    ∷ (line 2 (text "<string>--config</string>")
        ++ (9 ∷ 9 ∷ (text "<string>" ++ (xml_escape path ++ text "</string>"))))

unfoldable pub render_plist : Text → Text → Option Text → Text → Text
unfolding xml_escape config_args
render_plist exe log config_path socket =
    line 0 (text "<?xml version=\"1.0\" encoding=\"UTF-8\"?>")
    ++ line 0 (
        text
          "<!DOCTYPE plist PUBLIC \"-//Apple//DTD PLIST 1.0//EN\" \"http://www.apple.com/DTDs/PropertyList-1.0.dtd\">")
    ++ line 0 (text "<plist version=\"1.0\">")
    ++ line 0 (text "<dict>")
    ++ line 1 (text "<key>Label</key>")
    ++ line 1 (text "<string>" ++ (label ++ text "</string>"))
    ++ line 1 (text "<key>ProgramArguments</key>")
    ++ line 1 (text "<array>")
    ++ line 2 (text "<string>" ++ (xml_escape exe ++ text "</string>"))
    ++ line 2 (text "<string>start</string>")
    ++ line 2 (text "<string>--fg</string>")
    ++ line 2 (text "<string>--socket</string>")
    ++ line 2 (text "<string>" ++ (xml_escape socket ++ text "</string>"))
    ++ line 2 (config_args config_path)
    ++ line 1 (text "</array>")
    ++ line 1 (text "<key>RunAtLoad</key>")
    ++ line 1 (text "<true/>")
    ++ line 1 (text "<key>KeepAlive</key>")
    ++ line 1 (text "<dict>")
    ++ line 2 (text "<key>SuccessfulExit</key>")
    ++ line 2 (text "<false/>")
    ++ line 1 (text "</dict>")
    ++ line 1 (text "<key>StandardOutPath</key>")
    ++ line 1 (text "<string>" ++ (xml_escape log ++ text "</string>"))
    ++ line 1 (text "<key>StandardErrorPath</key>")
    ++ line 1 (text "<string>" ++ (xml_escape log ++ text "</string>"))
    ++ line 0 (text "</dict>")
    ++ line 0 (text "</plist>")

abbrev pub from_environment : CredentialSource → Bool
from_environment env = true
from_environment keychain = false

abbrev pub none_or_env : Option VaultwardenConfig → Bool
none_or_env none = true
none_or_env (some vw) = from_environment vw.credentials

abbrev pub env_for : Backend → Config → Bool
env_for bws c = from_environment c.credentials
env_for vaultwarden c = none_or_env c.vaultwarden

unfoldable pub uses_env_credentials : Config → Bool
uses_env_credentials c = env_for c.backend c
