-- ===== src/Tests/Wallet.antt =====
-- The approval gate at concrete requests.
use widespread_logos.Prelude.{
  ◌≡◌, refl, true, false, Option, none, some, [], ◌∷◌, Text, codes, Result, ok, arith,
}
use widespread_logos.Risc0.{instruction_data_hex}
use widespread_logos.Approval.Decoder.Calls.{named_values}
use widespread_logos.Approval.Sessions.{find}
use widespread_logos.Approval.Effects.{
  RegistryEntryLike, Fetch, raw_effect, describe_call, fetch_idl_by_cid,
}
use widespread_logos.Approval.Effects.Honest.{
  IsHonest, describe_call-IsHonest, describe_call-instruction_data_hex,
}
use widespread_logos.Approval.Gate.{
  Request, program_call, sent, new_gate, session_ttl_ms, Turn, gated, run,
}
use widespread_logos.Approval.Gate.Invariant.{IsGated, run-IsGated}
use widespread_logos.Approval.Gate.Prompts.{call-after_call}
use widespread_logos.Tests.Codec.{
  mint, idl, arguments, shown, arguments-DescribesArgs, mint-HasDistinctNames,
}

abbrev approved : Turn
approved = record {
  asked_at = 1000;
  confirmed_at = 2000;
  effect = raw_effect (codes "p") (codes "00");
  answer = ok true;
  reply = ok (codes "tx");
}

abbrev refused : Turn
refused = record approved { answer = ok false }

abbrev later : Turn
later = record refused { asked_at = 902000 }

abbrev call : Text → Request
call data_hex = program_call (codes "p") data_hex [] none

run-IsGated_example :
    IsGated (run ((call (codes "00"), approved) ∷ (call (codes "01"), later) ∷ []) new_gate).log
run-IsGated_example = run-IsGated ((call (codes "00"), approved) ∷ (call (codes "01"), later) ∷ [])

call-after_call_example :
    (gated (call (codes "01")) later (gated (call (codes "00")) approved new_gate).1).1.log
    ≡ sent (call (codes "01")) 902000 ∷ (gated (call (codes "00")) approved new_gate).1.log
unfolding session_ttl_ms find
call-after_call_example =
    call-after_call (codes "p") (codes "00") (codes "01") [] [] none none approved later new_gate
      refl refl (omega arith)

abbrev counter : RegistryEntryLike
counter = record {
  name = codes "counter";
  version = codes "1.0";
  idl_cid = codes "z1";
  kind = codes "deployer";
}

abbrev lookup : Text → Result (Option RegistryEntryLike)
lookup program = ok (some counter)

abbrev fetch : Fetch
fetch url = ok (record { ok_status = true; json = ok idl })

describe_call-IsHonest_example :
    IsHonest
      (record {
        lookup = some lookup;
        fetch = fetch;
        node_url = some (codes "http://n/");
        program = codes "p";
      })
      (codes "00")
      (describe_call (some lookup) fetch (some (codes "http://n/")) (codes "p") (codes "00"))
describe_call-IsHonest_example =
    describe_call-IsHonest (some lookup) fetch (some (codes "http://n/")) (codes "p") (codes "00")

describe_call-instruction_data_hex_example :
    ((describe_call
        (some lookup)
        fetch
        (some (codes "http://n/"))
        (codes "p")
        (instruction_data_hex 1 arguments)).instruction
      ≡ some mint.name)
    × ((describe_call
          (some lookup)
          fetch
          (some (codes "http://n/"))
          (codes "p")
          (instruction_data_hex 1 arguments)).args
        ≡ some (named_values mint.args shown))
unfolding fetch_idl_by_cid
describe_call-instruction_data_hex_example =
    describe_call-instruction_data_hex lookup fetch (codes "http://n/") (codes "p") counter idl mint
      1 arguments shown refl refl refl (omega arith) refl arguments-DescribesArgs
      mint-HasDistinctNames
