-- ===== src/Examples/Listening.antt =====
-- A listener that meets one transaction. The world of the processor is the list of what it was given.
use flare_system_client.Prelude.{
  arith, be_bytes, be_value, ℕ, ◌+◌, ◌≡◌, ◌⊎◌, inl, inr, refl, List, [], ◌∷◌, ◌++◌, Bytes, Go, ok,
  true, false, ℤ, pos, ◌-ℤ◌, codes, if◌then◌else◌, ltb, ◌/◌, ◌%◌,
}
use flare_system_client.Database.{Transaction, fetch_transactions, normalised, is_call}
use flare_system_client.Utils.Hex.{trim_0x, hex_digit}
use flare_system_client.Finalizer.Payload.{
  SubmitterPayloadItem, decode_submitter_payload, decode_items, decode_signed_payload,
  decode_submitted_payload, slice, transform_signature,
}
use flare_system_client.Utils.Int64.{to_uint32}
use flare_system_client.Protocol.RoundTrip.{write_payloads}
use flare_system_client.Protocol.Signatures.{write_payload}
use flare_system_client.Finalizer.Listener.{
  payload_of, decoded_prefix, transactions_tick, listener_step, listener_txs, Listens, begins,
  listens_on, indexed, ticked,
}
use flare_system_client.Finalizer.Listener.Outcome.{HandlingLaws, is_after}
use flare_system_client.Finalizer.Listener.Complete.{listener-complete}
use flare_system_client.Examples.Payloads.{toy, written}

abbrev hex_of : ℕ → ℕ
hex_of n = if ltb n 10 then 48 + n else 87 + n

abbrev hex_text : Bytes → Bytes
hex_text [] = []
hex_text (b ∷ bs) = hex_of (b / 16) ∷ (hex_of (b % 16) ∷ hex_text bs)

abbrev Log : Type 0
Log = List (List SubmitterPayloadItem)

abbrev take_note : Log → List SubmitterPayloadItem → Log × Go ℕ (Unit {0})
take_note log items = (items ∷ log, ok tt)

abbrev InLog : List SubmitterPayloadItem → Log → Type 0
InLog items [] = ⊥
InLog items (x ∷ xs) = (items ≡ x) ⊎ InLog items xs

abbrev Noted : Log → List SubmitterPayloadItem → Type 0
Noted log items = (items ≡ []) ⊎ InLog items log

stays_there :
    (log : Log) (items others : List SubmitterPayloadItem)
    → Noted log items
    → Noted (others ∷ log) items
stays_there log items others (inl empty) = inl empty
stays_there log items others (inr there) = inr (inr there)

log_laws : HandlingLaws toy take_note Noted
log_laws = record {
  handled-ok = λ s items u e. inr (inl refl);
  handled_still = stays_there;
  handled-nil = λ s. inl refl;
}

abbrev tx_at : ℕ → Transaction
tx_at t = record {
  to_address = codes "ab";
  function_sig = codes "01020304";
  input = hex_text ((1 ∷ 2 ∷ 3 ∷ 4 ∷ []) ++ written);
  timestamp = t;
}

abbrev two_txs : List Transaction
two_txs = tx_at 10 ∷ tx_at 12 ∷ []

abbrev after_tick : Log × ℤ
after_tick =
    transactions_tick toy take_note (codes "0xAB") (codes "01020304") two_txs (pos 20) [] (pos 5)

start_moved : after_tick.1 ≡ pos 11
unfolding transactions_tick listener_step listener_txs fetch_transactions normalised trim_0x
    payload_of decoded_prefix hex_digit decode_submitter_payload decode_items write_payloads
    write_payload ◌-ℤ◌ be_bytes to_uint32 be_value decode_signed_payload decode_submitted_payload
    slice transform_signature
start_moved = refl

whole_run :
    Listens toy take_note
      (codes "0xAB")
      (codes "01020304")
      ([], [], pos 5)
      (two_txs, after_tick.0, after_tick.1)
whole_run =
    listens_on (two_txs, [], pos 5) (two_txs, after_tick.0, after_tick.1)
      (listens_on ([], [], pos 5) (two_txs, [], pos 5) begins (indexed [] two_txs [] (pos 5)))
      (ticked two_txs [] (pos 5) (pos 20))

asked_for : is_call (codes "0xAB") (codes "01020304") (tx_at 10) ≡ true
unfolding normalised trim_0x
asked_for = refl

over : is_after after_tick.1 (tx_at 10) ≡ false
over = rw start_moved refl

listener-complete_example : Noted after_tick.0 (payload_of toy (tx_at 10).input)
listener-complete_example =
    listener-complete (codes "0xAB") (codes "01020304") toy take_note Noted log_laws (pos 5) []
      two_txs [] after_tick.0 after_tick.1 0 (tx_at 10) (((omega arith), tt), (tt, tt)) whole_run
      refl asked_for refl over
