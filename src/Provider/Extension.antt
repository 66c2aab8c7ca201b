-- ===== src/Provider/Extension.antt =====
-- extensionBridge: the calls of a page, the messages that it receives and its timers. A call is the
-- promise together with the handler and the timer that it has installed.
use widespread_logos.Prelude.{
  ℕ, ◌+◌, Bool, true, false, ◌&&◌, ◌||◌, Option, none, some, List, [], ◌∷◌, ◌++◌, map, Text, codes,
  text_eq, leb, message, Result, ok, err, if◌then◌else◌,
}
use widespread_logos.Platform.{decimal}
use widespread_logos.Platform.Json.{
  Value, undefined, null, bool, num, str, arr, obj, Fields, empty, field, object, find, get?,
  truthy, to_text,
}
use widespread_logos.Backends.Pwa.Surface.{is_text}

pub record Call : Type 0 where
  pub id : Text
  pub deadline : ℕ
  pub listening : Bool
  pub timer : Bool
  pub outcome : Option (Result Value)

-- `posted` holds the messages of the page, the latest first; the clock counts milliseconds.
pub record Page : Type 0 where
  pub ext_seq : ℕ
  pub now : ℕ
  pub calls : List Call
  pub posted : List Value

abbrev pub timeout_ms : ℕ
timeout_ms = 120000

unfoldable pub request_id : ℕ → ℕ → Text
unfolding decimal
request_id seq now = codes "lez-" ++ (decimal seq ++ (codes "-" ++ decimal now))

unfoldable pub response_type : Text → Text
response_type id = codes "ROOTED_WALLET_RESPONSE_" ++ id

unfoldable pub has_key : Text → Fields → Bool
has_key key empty = false
has_key key (field k v fs) = text_eq k key || has_key key fs

-- `r && typeof r === 'object' && 'result' in r ? r.result : r`
unfoldable pub result_part : Value → Value
unfolding has_key
result_part (obj fs) = if has_key (codes "result") fs then find (codes "result") fs else obj fs
result_part undefined = undefined
result_part null = null
result_part (bool b) = bool b
result_part (num n) = num n
result_part (str s) = str s
result_part (arr vs) = arr vs

-- What the handler settles the promise with.
unfoldable pub answer : Value → Result Value
unfolding result_part truthy get? to_text
answer r =
    if truthy (get? (codes "error") r)
    then err (message (to_text (get? (codes "error") r)))
    else ok (result_part r)

-- A promise of the language: it keeps the first value that `resolve` or `reject` gives it.
unfoldable pub settled : Option (Result Value) → Result Value → Option (Result Value)
settled (some r) late = some r
settled none r = some r

-- The handler of one call.
unfoldable pub on_message : Value → Call → Call
unfolding response_type answer settled is_text get?
on_message d c =
    if c.listening && is_text (response_type c.id) (get? (codes "type") d)
    then record c {
      listening = false;
      outcome = settled c.outcome (answer (get? (codes "response") d));
    }
    else c

unfoldable pub no_answer : Result Value
no_answer = err (message (codes "lez: extension did not respond"))

-- The timer of one call.
unfoldable pub on_time : ℕ → Call → Call
unfolding no_answer settled
on_time now c =
    if c.timer && leb c.deadline now
    then record c { timer = false; listening = false; outcome = settled c.outcome no_answer }
    else c

unfoldable pub request_message : Text → Text → Value → Value
request_message id op params = object (
    (codes "type", str (codes "ROOTED_WALLET_REQUEST"))
    ∷ (codes "id", str id)
    ∷ (codes "method", str op)
    ∷ (codes "params", params)
    ∷ [])

unfoldable pub new_call : Text → ℕ → Call
new_call id now = record {
  id = id;
  deadline = now + timeout_ms;
  listening = true;
  timer = true;
  outcome = none;
}

-- `call(op, params)`
unfoldable pub call : Text → Value → Page → Page
unfolding request_id request_message new_call
call op params p =
    let id = request_id (p.ext_seq + 1) p.now in
    record p {
      ext_seq = p.ext_seq + 1;
      calls = new_call id p.now ∷ p.calls;
      posted = request_message id op params ∷ p.posted;
    }

-- What happens on the page: a call of the SDK, a message on the window, the passing of time.
pub data PageEvent : Type 0 where
  called : Text → Value → PageEvent
  received : Value → PageEvent
  waited : ℕ → PageEvent

unfoldable pub page_step : PageEvent → Page → Page
unfolding call on_message on_time
page_step (called op params) p = call op params p
page_step (received d) p = record p { calls = map (on_message d) p.calls }
page_step (waited ms) p = record p { now = p.now + ms; calls = map (on_time (p.now + ms)) p.calls }

unfoldable pub page_run : List PageEvent → Page → Page
unfolding page_step
page_run [] p = p
page_run (e ∷ es) p = page_run es (page_step e p)

-- A page that has just been loaded.
unfoldable pub new_page : ℕ → Page
new_page now = record { ext_seq = 0; now = now; calls = []; posted = [] }
