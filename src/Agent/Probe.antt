-- ===== src/Agent/Probe.antt =====
-- src/agent.rs: `load_key` and `probe_keys`. A built fetcher keeps its session in the world, and so
-- does a grace authorizer its approvals; `fetch` and `grace` are their calls.
use tapwarden.Base.{ℕ, List, [], ◌∷◌, ◌++◌, Text, text, Result, ok, err, result_map}
use tapwarden.Base.Try.{◌>>=◌}
use tapwarden.Base.Action.{Action, continue_with, lift}
use tapwarden.Secret.Endpoint.{context_text}
use tapwarden.Secret.Bws.{BwsHost}
use tapwarden.Secret.Bws.Decode.{SecretData}
use tapwarden.Vaultwarden.Fetcher.{VwHost}
use tapwarden.Authorizer.{Authorizer}
use tapwarden.Authorizer.Yubikey.{FidoHost}
use tapwarden.Config.{Config}
use tapwarden.Config.Load.{ConfigHost}
use tapwarden.Agent.Key.{Ssh, LoadedKey, decode_key}
use tapwarden.Agent.Build.{Gate, every_use, with_grace, Fetcher, build_authorizer, build_fetcher}

pub record AgentHost (Entry Device PublicKey R PrivateKey W : Type 0) : Type 0 where
  pub config : ConfigHost PublicKey W
  pub biometric : Authorizer W
  pub fido : FidoHost Device PublicKey R W
  pub grace : Authorizer W → ℕ → Authorizer W
  pub bws : BwsHost Entry W
  pub vaultwarden : VwHost Entry W
  pub fetch : Fetcher → ℕ → Action W SecretData
  pub ssh : Ssh PrivateKey

module _ {Entry Device PublicKey R PrivateKey W : Type 0}
    (host : AgentHost Entry Device PublicKey R PrivateKey W) where
  unfoldable pub authorizer_of : Gate W → Authorizer W
  authorizer_of (every_use factor) = factor
  authorizer_of (with_grace factor window) = host.grace factor window

  abbrev parse_id : Text → Result ℕ
  parse_id s =
      context_text (text "secret id `" ++ s ++ text "` is not a UUID") (host.config.parse_uuid s)

  -- `collect` into a result: the first error ends it.
  unfoldable pub parse_ids : List Text → Result (List ℕ)
  parse_ids [] = ok []
  parse_ids (s ∷ rest) = do id ← parse_id s; ids ← parse_ids rest; ok (id ∷ ids)

  unfoldable pub load_key : Fetcher → ℕ → Action W (LoadedKey PrivateKey)
  unfolding decode_key
  load_key fetcher id w =
      continue_with (host.fetch fetcher id w) (λ secret. lift (decode_key host.ssh secret))

  abbrev comment_of : LoadedKey PrivateKey → Text
  comment_of k = k.comment

  unfoldable pub probe : Fetcher → List ℕ → W → List (ℕ × Result Text) × W
  unfolding load_key
  probe fetcher [] w = ([], w)
  probe fetcher (id ∷ ids) w =
      let (key, w1) = load_key fetcher id w in
      let (out, w2) = probe fetcher ids w1 in ((id, result_map comment_of key) ∷ out, w2)

  -- What is built of a configuration before anything is called.
  unfoldable pub built : Config → Result (List ℕ × (Authorizer W × Fetcher))
  unfolding parse_ids build_authorizer authorizer_of build_fetcher
  built config = do
    ids ← parse_ids config.secret_ids
    gate ← build_authorizer host.config host.biometric host.fido config
    fetcher ← build_fetcher host.config host.bws host.vaultwarden (authorizer_of gate) config
    ok (ids, (authorizer_of gate, fetcher))

  abbrev probed :
      Result (List ℕ × (Authorizer W × Fetcher)) → W → Result (List (ℕ × Result Text)) × W
  probed (err e) w = (err e, w)
  probed (ok (ids, (authorizer, fetcher))) w = let (out, w') = probe fetcher ids w in (ok out, w')

  unfoldable pub probe_keys : Config → Action W (List (ℕ × Result Text))
  unfolding built probe
  probe_keys config w = probed (built config) w
