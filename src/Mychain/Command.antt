-- ===== src/Mychain/Command.antt =====
-- mychain/cmd/mychaind/root.go and main.go, and `init` of mychain/app/app.go: the commands of the chain's
-- daemon with their arguments, what runs before each of them, and how the process ends.
use poc_cometbft.Prelude.{
  ℕ, ◌*◌, ◌^◌, ◌≡◌, refl, ap, List, [], ◌∷◌, Outcome, ok, err, panic, ◌>>=◌, must, >>=-eq-ok,
}
use poc_cometbft.Bytes.{Bytes, bytes}
use poc_cometbft.Mychain.Names.{ModuleName}
use poc_cometbft.Mychain.Wiring.{module_basics}

-- What the code uses of the libraries: the client's context and the functions that set a field of it, a
-- command with its flags, and the configurations with the fields that the code sets. The last two functions
-- work on the command that they are given.
pub record CommandSdk : Type 1 where
  pub Context : Type 0
  pub Encoding : Type 0
  pub Cmd : Type 0
  pub Flags : Type 0
  pub ServerConfig : Type 0
  pub CmtConfig : Type 0
  pub empty_context : Context
  pub with_codec : Encoding → Context → Context
  pub with_interface_registry : Encoding → Context → Context
  pub with_tx_config : Encoding → Context → Context
  pub with_legacy_amino : Encoding → Context → Context
  pub with_stdin : Context → Context
  pub with_account_retriever : Context → Context
  pub with_home_dir : Bytes → Context → Context
  pub with_viper : Bytes → Context → Context
  pub flags : Cmd → Flags
  pub default_config : ServerConfig
  pub with_min_gas_prices : Bytes → ServerConfig → ServerConfig
  pub default_config_template : Bytes
  pub default_cmt_config : CmtConfig
  pub with_timeout_commit : ℕ → CmtConfig → CmtConfig
  pub read_persistent_command_flags : Context → Flags → Outcome Bytes Context
  pub read_from_client_config : Context → Outcome Bytes Context
  pub set_cmd_client_context_handler : Context → Cmd → Outcome Bytes (Unit {0}) × Cmd
  pub intercept_configs_pre_run_handler :
      Cmd → Bytes → ServerConfig → CmtConfig → Outcome Bytes (Unit {0}) × Cmd

-- The constructors of the root's commands, with what they are given: module basics, the default home and the
-- prefixes of the address codecs. `server_commands` is what `server.AddCommands` adds, with `newApp` and `appExport`.
pub data Command : Type 0 where
  init_cmd : List ModuleName → Bytes → Command
  debug_cmd : Command
  server_commands : Bytes → Command
  gen_tx_cmd : List ModuleName → Bytes → Bytes → Command
  collect_gen_txs_cmd : Bytes → Bytes → Command
  validate_genesis_cmd : List ModuleName → Command
  add_genesis_account_cmd : Bytes → Bytes → Command
  keys_commands query_txs_by_events_cmd query_tx_cmd : Command

-- `join` is `filepath.Join` of two names; an error of `os.UserHomeDir` is a panic.
unfoldable pub default_node_home :
    (Bytes → Bytes → Bytes) → Outcome Bytes Bytes → Outcome Bytes Bytes
default_node_home join user_home_dir = do
  home ← must user_home_dir
  ok (join home (bytes ".mychain"))

unfoldable pub init_root_cmd : Bytes → Bytes → Bytes → List Command
unfolding module_basics
init_root_cmd home validator_prefix account_prefix =
    init_cmd module_basics home
    ∷ debug_cmd
    ∷ server_commands home
    ∷ gen_tx_cmd module_basics home validator_prefix
    ∷ collect_gen_txs_cmd home validator_prefix
    ∷ validate_genesis_cmd module_basics
    ∷ add_genesis_account_cmd home account_prefix
    ∷ keys_commands
    ∷ query_txs_by_events_cmd
    ∷ query_tx_cmd
    ∷ []

-- `main` behind `svrcmd.Execute`: the code that the process exits with.
unfoldable pub main : Outcome Bytes (Unit {0}) → Outcome Bytes ℕ
main (ok u) = ok 0
main (err e) = ok 1
main panic = panic

module _ (s : CommandSdk) where
  unfoldable pub init_app_config : Bytes × s.ServerConfig
  init_app_config =
      (s.default_config_template, s.with_min_gas_prices (bytes "0stake") s.default_config)

  -- Five seconds, in nanoseconds.
  unfoldable pub init_comet_bft_config : s.CmtConfig
  init_comet_bft_config = s.with_timeout_commit (5 * 10 ^ 9) s.default_cmt_config

  -- The context that `NewRootCmd` makes.
  unfoldable pub init_client_ctx : s.Encoding → Bytes → s.Context
  init_client_ctx encoding home =
      let encoded = s.with_legacy_amino encoding (
        s.with_tx_config encoding
          (s.with_interface_registry encoding (s.with_codec encoding s.empty_context))) in
      s.with_viper [] (s.with_home_dir home (s.with_account_retriever (s.with_stdin encoded)))

  unfoldable pub intercepted : Outcome Bytes (Unit {0}) × s.Cmd → Outcome Bytes (Unit {0}) × s.Cmd
  unfolding init_app_config init_comet_bft_config
  intercepted (ok u, cmd) =
      s.intercept_configs_pre_run_handler cmd init_app_config.0 init_app_config.1
        init_comet_bft_config
  intercepted (err e, cmd) = (err e, cmd)
  intercepted (panic, cmd) = (panic, cmd)

  unfoldable pub with_context : Outcome Bytes s.Context → s.Cmd → Outcome Bytes (Unit {0}) × s.Cmd
  unfolding intercepted
  with_context (ok ctx) cmd = intercepted (s.set_cmd_client_context_handler ctx cmd)
  with_context (err e) cmd = (err e, cmd)
  with_context panic cmd = (panic, cmd)

  -- `PersistentPreRunE`: each run starts from the context that `NewRootCmd` made, which it shadows.
  unfoldable pub persistent_pre_run : s.Context → s.Cmd → Outcome Bytes (Unit {0}) × s.Cmd
  unfolding with_context
  persistent_pre_run ctx cmd =
      with_context
        (do
          ctx' ← s.read_persistent_command_flags ctx (s.flags cmd)
          s.read_from_client_config ctx')
        cmd

  intercepted_ok :
      (r : Outcome Bytes (Unit {0}) × s.Cmd) (cmd' : s.Cmd)
      → intercepted r ≡ (ok tt, cmd')
      → (cmd1 : s.Cmd) × (r ≡ (ok tt, cmd1))
        × (s.intercept_configs_pre_run_handler cmd1 init_app_config.0 init_app_config.1
              init_comet_bft_config
            ≡ (ok tt, cmd'))
  unfolding intercepted
  intercepted_ok (ok tt, cmd) cmd' h = (cmd, refl, h)
  intercepted_ok (err e, cmd) cmd' h = cc (ap (λ r. r.0) h)
  intercepted_ok (panic, cmd) cmd' h = cc (ap (λ r. r.0) h)

  with_context_ok :
      (o : Outcome Bytes s.Context) (cmd cmd' : s.Cmd)
      → with_context o cmd ≡ (ok tt, cmd')
      → (ctx : s.Context) × (cmd1 : s.Cmd) × (o ≡ ok ctx)
        × (s.set_cmd_client_context_handler ctx cmd ≡ (ok tt, cmd1))
        × (s.intercept_configs_pre_run_handler cmd1 init_app_config.0 init_app_config.1
              init_comet_bft_config
            ≡ (ok tt, cmd'))
  unfolding with_context
  with_context_ok (ok ctx) cmd cmd' h =
      let (cmd1, sets, runs) = intercepted_ok (s.set_cmd_client_context_handler ctx cmd) cmd' h in
      (ctx, cmd1, refl, sets, runs)
  with_context_ok (err e) cmd cmd' h = cc (ap (λ r. r.0) h)
  with_context_ok panic cmd cmd' h = cc (ap (λ r. r.0) h)

  -- A command of the daemon runs only behind a context that is read from the command's flags and then from
  -- the client's configuration, and set on the command, and behind the configurations of the server, of
  -- which the least gas price is none of stake and the timeout of commits five seconds.
  pub persistent_pre_run_ok :
      (ctx : s.Context) (cmd cmd' : s.Cmd)
      → persistent_pre_run ctx cmd ≡ (ok tt, cmd')
      → (ctx1 : s.Context) × (ctx2 : s.Context) × (cmd1 : s.Cmd) × (s.read_persistent_command_flags
            ctx
            (s.flags cmd)
          ≡ ok ctx1)
        × (s.read_from_client_config ctx1 ≡ ok ctx2)
        × (s.set_cmd_client_context_handler ctx2 cmd ≡ (ok tt, cmd1))
        × (s.intercept_configs_pre_run_handler cmd1 s.default_config_template
              (s.with_min_gas_prices (bytes "0stake") s.default_config)
              (s.with_timeout_commit 5000000000 s.default_cmt_config)
            ≡ (ok tt, cmd'))
  unfolding persistent_pre_run init_app_config init_comet_bft_config
  persistent_pre_run_ok ctx cmd cmd' h =
      let (ctx2, cmd1, reads, sets, runs) = with_context_ok _ cmd cmd' h in
      let (ctx1, flags_read, config_read) =
        >>=-eq-ok (s.read_persistent_command_flags ctx (s.flags cmd)) _ reads in
      (ctx1, ctx2, cmd1, flags_read, config_read, sets, runs)
