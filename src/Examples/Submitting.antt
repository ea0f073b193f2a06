-- ===== src/Examples/Submitting.antt =====
-- A signature submitter with two data providers, of which one answers. The world is the list of the
-- transactions that were sent.
use flare_system_client.Prelude.{
  ◌≡◌, refl, List, [], ◌∷◌, ◌++◌, replicate, Bytes, none, some, pos, arith, ok,
}
use flare_system_client.Protocol.Response.{
  HttpReply, status_ok, get_data_with_retry, checked_data, get_data, decode_response,
  verify_signature_data,
}
use flare_system_client.Protocol.Signatures.{
  Submitter, SubProtocol, signature_rounds, signature_round, collect_signed, write_payload, submit,
}
use flare_system_client.Utils.Hex.{hex_decode, hex_digit, trim_0x}
use flare_system_client.Shared.{execute_with_retry, retry_call}
use flare_system_client.Prelude.Calls.{return, ◌>>=◌}
use flare_system_client.Protocol.Submitted.{ReportLaws}
use flare_system_client.Protocol.Submitted.Rounds.{ReportedOnce, signature_rounds-ReportedOnce}
use flare_system_client.Examples.Payloads.{toy}

abbrev good_reply : HttpReply
good_reply = record {
  status_code = 200;
  status_line = status_ok;
  body = some (record { status = status_ok; data_text = replicate 76 b'0'; additional_data = [] });
}

abbrev answering : SubProtocol (List Bytes)
answering = record { id = 100; fetch = λ epoch w. (some good_reply, w) }

abbrev silent : SubProtocol (List Bytes)
silent = record { id = 200; fetch = λ epoch w. (none, w) }

abbrev recording : Submitter (List Bytes)
recording = record {
  selector = 1 ∷ 2 ∷ 3 ∷ 4 ∷ [];
  submit_retries = 1;
  data_fetch_retries = 2;
  send = λ payload w. (ok tt, w ++ (payload ∷ []));
}

recording-laws : ReportLaws recording (λ w. w)
recording-laws = record {
  send-ok = λ payload w e. refl;
  send-err = λ payload w x e. absurd (ground arith);
  send-calm = λ payload w e. absurd (ground arith);
}

-- The silent protocol is left over.
silent_left :
    (signature_rounds recording toy 5 (pos 8) 3 (answering ∷ silent ∷ []) []).0 ≡ ok (silent ∷ [])
unfolding signature_rounds signature_round collect_signed get_data_with_retry execute_with_retry
    checked_data get_data decode_response verify_signature_data hex_decode hex_digit trim_0x
    write_payload submit retry_call return ◌>>=◌
silent_left = refl

signature_rounds-ReportedOnce_example :
    (left : List (SubProtocol (List Bytes))) × (w' : List Bytes) × (signature_rounds recording toy 5
        (pos 8)
        3
        (answering ∷ silent ∷ [])
        []
      ≡ (ok left, w'))
    × ReportedOnce recording (λ w. w) toy 5 (pos 8) 3 (answering ∷ silent ∷ []) left [] w'
signature_rounds-ReportedOnce_example =
    signature_rounds-ReportedOnce recording (λ w. w) toy 5 (pos 8) recording-laws 3
      (answering ∷ silent ∷ []) [] (λ epoch w. refl, (λ epoch w. refl, tt))
