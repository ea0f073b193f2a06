-- ===== src/Config/Gas.antt =====
-- client/config/client.go against utils/chain/tx_utils.go: what a validated gas configuration promises.
use flare_system_client.Chain.{GasConfig, EthClient, wrapped, multiplied, price_from, get_gas_price}
use flare_system_client.Config.{validate_gas_config, validate_config}
use flare_system_client.Utils.Int64.{eq_ℤ, eq_ℤ→eq}
use flare_system_client.Prelude.{
  ◌≡◌, ◌≢◌, refl, sym, subst, codes, if◌then◌else◌, arith, ◌⊎◌, inl, inr, Bool, true, false,
  Bool-cases, Bytes, none, some, Option-cases, Go, ok, err, panicked, ℤ, pos,
}
use flare_system_client.Prelude.Calls.{Call, return, on_err, ◌>>=◌, continue, handled}

-- A fixed price is set, which may be 0, and where it is not 0 there is no multiplier.
abbrev pub HasNoTwoPrices : GasConfig → Type 0
HasNoTwoPrices cfg =
    (fixed : ℤ) × (cfg.gas_price_fixed ≡ some fixed)
    × ((fixed ≡ pos 0) ⊎ (cfg.gas_price_multiplier ≡ none))

validate-HasNoTwoPrices : (cfg : GasConfig) → validate_gas_config cfg ≡ ok tt → HasNoTwoPrices cfg
unfolding validate_gas_config
validate-HasNoTwoPrices cfg h = elim (Option-cases cfg.gas_price_fixed) [
  | inl e ↦ absurd (ground (arith, e))
  | inr (fixed, e) ↦ (
    fixed,
    e,
    elim (Bool-cases (eq_ℤ fixed (pos 0))) [
      | inl zero_price ↦ inl (eq_ℤ→eq fixed (pos 0) zero_price)
      | inr nonzero ↦ inr (elim (Option-cases cfg.gas_price_multiplier) [
        | inl m ↦ m
        | inr (times, m) ↦ absurd (ground (arith, e, nonzero, m))
      ])
    ],
  )
]

continue_calm :
    {W A B : Type 0} (left : Go Bytes A × W) (next : A → Call W Bytes B)
    → left.0 ≢ panicked
    → ((a : A) (w : W) → (next a w).0 ≢ panicked)
    → (continue left next).0 ≢ panicked
continue_calm (ok a, w) next h h' = h' a w
continue_calm (err e, w) next h h' = λ p. absurd (ground arith)
continue_calm (panicked, w) next h h' = absurd (h refl)

handled_calm :
    {W A : Type 0} (left : Go Bytes A × W) (handle : Bytes → Call W Bytes A)
    → left.0 ≢ panicked
    → ((e : Bytes) (w : W) → (handle e w).0 ≢ panicked)
    → (handled left handle).0 ≢ panicked
handled_calm (ok a, w) handle h h' = h
handled_calm (err e, w) handle h h' = h' e w
handled_calm (panicked, w) handle h h' = absurd (h refl)

price_from-calm :
    {W : Type 0} (fixed : ℤ) (cfg : GasConfig) (eth : EthClient W)
    → ((w : W) → (eth.suggest_gas_price w).0 ≢ panicked)
    → (w : W) → (price_from (some fixed) cfg eth w).0 ≢ panicked
unfolding price_from wrapped ◌>>=◌ on_err return
price_from-calm fixed cfg eth calm w = by_case (eq_ℤ fixed (pos 0))
  where
    by_case :
        (b : Bool)
        → (if◌then◌else◌ b
            (wrapped (codes "Unable to estimate gas price") eth.suggest_gas_price >>= λ suggested.
              return (ok (multiplied cfg.gas_price_multiplier suggested)))
            (return (ok fixed))
            w).0
          ≢ panicked
    by_case false = λ p. absurd (ground arith)
    by_case true =
        continue_calm _ _
          (handled_calm (eth.suggest_gas_price w) _ (calm w) (λ e w p. absurd (ground arith)))
          (λ a w p. absurd (ground arith))

one_price-calm :
    {W : Type 0} (cfg : GasConfig) (eth : EthClient W)
    → HasNoTwoPrices cfg
    → ((w : W) → (eth.suggest_gas_price w).0 ≢ panicked)
    → (w : W) → (get_gas_price cfg eth w).0 ≢ panicked
unfolding get_gas_price
one_price-calm cfg eth (fixed, e, u) calm w =
    subst (λ f. (price_from f cfg eth w).0 ≢ panicked) (sym e)
      (price_from-calm fixed cfg eth calm w)

first_passes :
    (x y : Go Bytes (Unit {0}))
    → ◌≡◌ {A = Go Bytes (Unit {0})}
        (elim x [ ok _ ↦ y | err e ↦ err e | panicked ↦ panicked ])
        (ok tt)
    → (x ≡ ok tt) × (y ≡ ok tt)
first_passes (ok u) y h = (refl, h)
first_passes (err e) y h = absurd (ground arith)
first_passes panicked y h = absurd (ground arith)

both_valid : (s r : GasConfig) → validate_config s r ≡ ok tt → HasNoTwoPrices s × HasNoTwoPrices r
unfolding validate_config
both_valid s r h =
    let (valid_s, valid_r) = first_passes (validate_gas_config s) (validate_gas_config r) h in
    (validate-HasNoTwoPrices s valid_s, validate-HasNoTwoPrices r valid_r)

-- With both configurations validated, neither has both prices, and `GetGasPrice` does not
-- panic for either, if the node's suggestion does not.
pub get_gas_price-calm :
    {W : Type 0} (submit_gas register_gas : GasConfig) (eth : EthClient W)
    → validate_config submit_gas register_gas ≡ ok tt
    → ((w : W) → (eth.suggest_gas_price w).0 ≢ panicked)
    → HasNoTwoPrices submit_gas
      × HasNoTwoPrices register_gas
      × ((w : W)
          → ((get_gas_price submit_gas eth w).0 ≢ panicked)
            × ((get_gas_price register_gas eth w).0 ≢ panicked))
get_gas_price-calm submit_gas register_gas eth h calm =
    let (s, r) = both_valid submit_gas register_gas h in
    (s, r, λ w. (one_price-calm submit_gas eth s calm w, one_price-calm register_gas eth r calm w))
