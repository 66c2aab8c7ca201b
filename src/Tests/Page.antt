-- ===== src/Tests/Page.antt =====
-- A provider on a page with the extension bridge.
use widespread_logos.Prelude.{
  ℕ, ◌+◌, true, false, Option, none, some, List, [], ◌∷◌, Text, codes, ok, ◌≡◌, refl, All, not, err,
  message, arith,
}
use widespread_logos.Platform.Json.{null, num, str, object, get?}
use widespread_logos.Backends.Pwa.Surface
use widespread_logos.Backends.Pwa.Surface.{
  import_blob, export_blob, kept_accounts, viewing_keys, keys_of, watch_account,
}
use widespread_logos.Provider.{Session, BridgeCall, TransferSpec, PrivateDestination, transfer}
use widespread_logos.Provider.Events.{
  a_claim, send, Announced, send-Announced, transfer-drops_private,
}
use widespread_logos.Provider.Extension.{
  Page, PageEvent, called, received, waited, page_step, page_run, new_page, timeout_ms,
}
use widespread_logos.Provider.Settles.{promise, is_settled, page_run-settles}
use widespread_logos.Provider.Once.{
  page_run-listening, call-answered, response_message, answers, elapsed, next_id,
}

-- A wallet that counts the calls and answers each with a hash.
abbrev counting_bridge : BridgeCall ℕ
counting_bridge op params h = (ok (object ((codes "tx_hash", str (codes "0x1")) ∷ [])), h + 1)

abbrev new_session : Session ℕ
new_session = record { connected = false; trace = []; host = 0 }

send-Announced_example :
    Announced
      (a_claim (codes "Public/a"))
      []
      (send counting_bridge (a_claim (codes "Public/a")) new_session)
send-Announced_example = send-Announced counting_bridge (a_claim (codes "Public/a")) new_session

abbrev private_transfer : TransferSpec
private_transfer = record {
  from = codes "Public/a";
  to = none;
  to_private = none;
  amount = codes "5";
}

abbrev hidden : Option PrivateDestination
hidden = some (record { npk = str (codes "n"); vpk = str (codes "v"); identifier = num 1 })

transfer-drops_private_example :
    ((transfer counting_bridge (record private_transfer { to_private = hidden }) new_session).0
      ≡ (transfer counting_bridge private_transfer new_session).0)
    × ((transfer counting_bridge
          (record private_transfer { to_private = hidden })
          new_session).1.host
        ≡ (transfer counting_bridge private_transfer new_session).1.host)
transfer-drops_private_example =
    transfer-drops_private counting_bridge private_transfer hidden new_session

-- A call that is answered, and one that is not.
abbrev first_id : Text
first_id = codes "lez-1-1000"

abbrev two_calls : List PageEvent
two_calls =
    called (codes "lez_accounts") null
    ∷ called (codes "lez_getBalance") null
    ∷ received (response_message first_id (str (codes "a")))
    ∷ []

page_run-settles_example :
    All
      (λ c. is_settled c.outcome ≡ true)
      (page_step (waited timeout_ms) (page_run two_calls (new_page 1000))).calls
page_run-settles_example = page_run-settles two_calls 1000

page_run-listening_example :
    All (λ c. not (is_settled c.outcome) ≡ c.listening) (page_run two_calls (new_page 1000)).calls
page_run-listening_example = page_run-listening two_calls 1000

-- A call, another one and a long wait before its response.
abbrev a_page : Page
a_page = page_run two_calls (new_page 1000)

abbrev meanwhile : List PageEvent
meanwhile = called (codes "lez_status") null ∷ waited 119999 ∷ received null ∷ []

call-answered_example :
    (promise
        (next_id a_page)
        (page_run
          (received
              (response_message (next_id a_page) (object ((codes "result", str (codes "c")) ∷ [])))
            ∷ waited 200000
            ∷ [])
          (page_run meanwhile (page_step (called (codes "lez_sync") null) a_page))).calls
      ≡ some (ok (str (codes "c"))))
    × (promise
          (next_id a_page)
          (page_run
            (received (
                response_message (next_id a_page) (object ((codes "error", str (codes "no")) ∷ [])))
              ∷ waited 200000
              ∷ [])
            (page_run meanwhile (page_step (called (codes "lez_sync") null) a_page))).calls
        ≡ some (err (message (codes "no"))))
unfolding answers elapsed Surface.is_text get?
call-answered_example =
    call-answered two_calls meanwhile (waited 200000 ∷ []) 1000 (codes "lez_sync") null
      (str (codes "c")) b'n' (codes "o") (refl, (refl, (refl, tt))) (omega arith)
