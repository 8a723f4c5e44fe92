-- ===== src/Mychain/Accepted.antt =====
-- What the ante handler has done to a transaction that it accepts.
use poc_cometbft.Prelude.{
  ℕ, List, [], ◌∷◌, ◌++◌, ◌≡◌, refl, sym, ap, ◌∙◌, Option, none, some, Outcome, ok, ok-injective,
  >>=-eq-ok,
}
use poc_cometbft.Bytes.{Bytes, bytes}
use poc_cometbft.Mychain.Ante.{
  AnteTypes, Decorator, HandlerOptions, ante_decorators, new_ante_handler, required, dereferenced,
  set_up_context, limit_simulation_gas, count_tx, extension_options, validate_basic,
  tx_timeout_height, validate_memo, consume_gas_for_tx_size, deduct_fee, set_pub_key,
  validate_sig_count, sig_gas_consume, sig_verification, increment_sequence, redundant_relay,
}

-- The handler's calls: a decorator is run on a context with the handler that follows it.
pub record AnteSdk (t : AnteTypes) : Type 1 where
  pub Context : Type 0
  pub decorate : Decorator t → (Context → Outcome Bytes Context) → Context → Outcome Bytes Context
  pub chain_ante_decorators : List (Decorator t) → Context → Outcome Bytes Context
  -- What a decorator does to the context that it passes on.
  pub Does : Decorator t → Context → Context → Type 0

-- Their documentation: a chain runs its first decorator with the rest of the chain behind it; the last
-- one is followed by a handler that returns the context; and a decorator that returns no error has done
-- its work and returns what the handler behind it returns for the context that it passes on.
pub record AnteLaws {t : AnteTypes} (a : AnteSdk t) : Type 0 where
  pub chain_nil : (ctx : a.Context) → a.chain_ante_decorators [] ctx ≡ ok ctx
  pub chain_cons :
      (d : Decorator t) (ds : List (Decorator t)) (ctx : a.Context)
      → a.chain_ante_decorators (d ∷ ds) ctx ≡ a.decorate d (a.chain_ante_decorators ds) ctx
  pub passes :
      (d : Decorator t) (next : a.Context → Outcome Bytes a.Context) (ctx result : a.Context)
      → a.decorate d next ctx ≡ ok result
      → (ctx' : a.Context) × a.Does d ctx ctx' × (next ctx' ≡ ok result)

module _ {t : AnteTypes} (a : AnteSdk t) (l : AnteLaws a) where
  -- The decorators did their work, each on the context that the one before passed on.
  unfoldable pub Did : List (Decorator t) → a.Context → a.Context → Type 0
  Did [] ctx result = ctx ≡ result
  Did (d ∷ ds) ctx result = (ctx' : a.Context) × a.Does d ctx ctx' × Did ds ctx' result

  chain-Did :
      (ds : List (Decorator t)) (ctx result : a.Context)
      → a.chain_ante_decorators ds ctx ≡ ok result
      → Did ds ctx result
  unfolding Did
  chain-Did [] ctx result h = ok-injective (sym (l.chain_nil ctx) ∙ h)
  chain-Did (d ∷ ds) ctx result h =
      let (ctx', does, next) =
        l.passes d (a.chain_ante_decorators ds) ctx result (sym (l.chain_cons d ds ctx) ∙ h) in
      (ctx', does, chain-Did ds ctx' result next)

  abbrev pub before_fee : HandlerOptions t → t.AccountKeeper → Option ℕ → List (Decorator t)
  before_fee options accounts gas_limit =
      set_up_context
      ∷ limit_simulation_gas gas_limit
      ∷ count_tx options.tx_counter_store_service
      ∷ extension_options options.extension_option_checker
      ∷ validate_basic
      ∷ tx_timeout_height
      ∷ validate_memo accounts
      ∷ consume_gas_for_tx_size accounts
      ∷ []

  abbrev pub before_signatures : HandlerOptions t → t.AccountKeeper → List (Decorator t)
  before_signatures options accounts =
      set_pub_key accounts
      ∷ validate_sig_count accounts
      ∷ sig_gas_consume accounts options.sig_gas_consumer
      ∷ []

  from_signatures : HandlerOptions t → t.AccountKeeper → t.SignModeHandler → List (Decorator t)
  from_signatures options accounts modes =
      sig_verification accounts modes
      ∷ increment_sequence accounts
      ∷ redundant_relay options.ibc_keeper
      ∷ []

  -- With the options' keepers, none of which is nil: what the decorators do to a transaction before its
  -- fee is deducted, the fee, what they do before its signatures are verified, the signatures, the
  -- sequence of its signers, and the rest.
  abbrev pub Accepted : HandlerOptions t → a.Context → a.Context → Type 0
  Accepted options ctx result =
      (accounts : t.AccountKeeper) × (bank : t.BankKeeper) × (modes : t.SignModeHandler)
      × (gas_limit : Option ℕ) × (c1 : a.Context) × (c2 : a.Context) × (c3 : a.Context)
      × (c4 : a.Context) × (c5 : a.Context) × ((options.account_keeper ≡ some accounts)
          × (options.bank_keeper ≡ some bank)
          × (options.sign_mode_handler ≡ some modes)
          × (options.wasm_config ≡ some gas_limit))
      × Did (before_fee options accounts gas_limit) ctx c1
      × a.Does (deduct_fee accounts bank options.feegrant_keeper options.tx_fee_checker) c1 c2
      × Did (before_signatures options accounts) c2 c3
      × a.Does (sig_verification accounts modes) c3 c4
      × a.Does (increment_sequence accounts) c4 c5
      × Did (redundant_relay options.ibc_keeper ∷ []) c5 result

  required_ok :
      {A : Type 0} (error : Bytes) (o : Option A) (v : A) → required error o ≡ ok v → o ≡ some v
  required_ok error none v h = cc
  required_ok error (some u) v h = ap some (ok-injective h)

  dereferenced_ok : {A : Type 0} (o : Option A) (v : A) → dereferenced o ≡ ok v → o ≡ some v
  dereferenced_ok none v h = cc
  dereferenced_ok (some u) v h = ap some (ok-injective h)

  append-Did :
      (ds es : List (Decorator t)) (ctx result : a.Context)
      → Did (ds ++ es) ctx result
      → (between : a.Context) × Did ds ctx between × Did es between result
  unfolding Did
  append-Did [] es ctx result did = (ctx, refl, did)
  append-Did (d ∷ ds) es ctx result (ctx', does, did) =
      let (between, first, later) = append-Did ds es ctx' result did in
      (between, (ctx', does, first), later)

  accepted :
      (options : HandlerOptions t) (accounts : t.AccountKeeper) (bank : t.BankKeeper)
      (modes : t.SignModeHandler) (gas_limit : Option ℕ) (ctx result : a.Context)
      → (options.account_keeper ≡ some accounts)
        × (options.bank_keeper ≡ some bank)
        × (options.sign_mode_handler ≡ some modes)
        × (options.wasm_config ≡ some gas_limit)
      → Did (ante_decorators t options accounts bank modes gas_limit) ctx result
      → Accepted options ctx result
  unfolding Did ante_decorators from_signatures
  accepted options accounts bank modes gas_limit ctx result given did =
      let (c1, first, (c2, fee, rest)) =
        append-Did (before_fee options accounts gas_limit)
          (deduct_fee accounts bank options.feegrant_keeper options.tx_fee_checker
            ∷ (before_signatures options accounts ++ from_signatures options accounts modes))
          ctx result did in
      let (c3, keys, (c4, signed, (c5, counted, relay))) =
        append-Did (before_signatures options accounts) (from_signatures options accounts modes) c2
          result rest in
      (
        accounts, bank, modes, gas_limit, c1, c2, c3, c4, c5, given, first, fee, keys, signed,
        counted, relay,
      )

  -- If the ante handler that `NewAnteHandler` made accepts a transaction, the three keepers of the options
  -- were not nil, and the transaction's fee was deducted, then its signatures were verified, and on the
  -- context that this passed on the sequences of its signers were incremented; the other decorators ran
  -- around these in the order of the list.
  pub accepted_lem :
      (options : HandlerOptions t) (handler : a.Context → Outcome Bytes a.Context)
      (ctx result : a.Context)
      → new_ante_handler t a.chain_ante_decorators options ≡ ok handler
      → handler ctx ≡ ok result
      → Accepted options ctx result
  unfolding new_ante_handler
  accepted_lem options handler ctx result made h =
      let (accounts, e1, made1) =
        >>=-eq-ok (required (bytes "account keeper is nil") options.account_keeper) _ made in
      let (bank, e2, made2) =
        >>=-eq-ok (required (bytes "bank keeper is nil") options.bank_keeper) _ made1 in
      let (modes, e3, made3) =
        >>=-eq-ok (required (bytes "sign mode handler is nil") options.sign_mode_handler) _ made2 in
      let (gas_limit, e4, made4) = >>=-eq-ok (dereferenced options.wasm_config) _ made3 in
      accepted options accounts bank modes gas_limit ctx result
        (
          required_ok (bytes "account keeper is nil") _ accounts e1,
          required_ok (bytes "bank keeper is nil") _ bank e2,
          required_ok (bytes "sign mode handler is nil") _ modes e3,
          dereferenced_ok _ gas_limit e4,
        )
        (chain-Did _ ctx result (ap (λ f. f ctx) (ok-injective made4) ∙ h))
