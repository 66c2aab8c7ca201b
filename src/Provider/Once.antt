-- ===== src/Provider/Once.antt =====
-- The handler of a call of extensionBridge: it listens exactly while the promise is pending, and a
-- response reaches its own call.
use widespread_logos.Prelude.{
  ℕ, ◌+◌, ◌≤◌, ◌<◌, leb, Bool, false, not, ◌&&◌, Option, none, some, List, [], ◌∷◌, ◌++◌, map, Text,
  codes, text_eq, text_eq_refl, text_eq_ne, text_eq_iff, All, Result, ok, err, message,
  if◌then◌else◌, ◌≡◌, refl, ap, sym, ◌∙◌, arith, Bool-cases, inl, inr,
}
use widespread_logos.Platform.Json.{Value, object, str, get?, find, truthy, to_text}
use widespread_logos.Backends.Pwa.Surface.{is_text}
use widespread_logos.Provider.Extension.{
  Call, Page, PageEvent, called, received, waited, page_step, page_run, new_page, new_call, call,
  on_message, on_time, request_id, response_type, settled, answer, has_key, result_part,
}
use widespread_logos.Provider.Settles.{
  promise, is_settled, settled-stays, All-map, IsNumbered, WasGiven, step-IsNumbered, on_message-id,
  on_time-id, request_id-inj,
}

settled-same :
    (o : Option (Result Value)) (late r : Result Value) → o ≡ some r → settled o late ≡ some r
unfolding settled
settled-same none late r same = cc
settled-same (some q) late r same = same

on_message-same :
    (d : Value) (c : Call) (r : Result Value)
    → c.outcome ≡ some r
    → (on_message d c).outcome ≡ some r
unfolding on_message
on_message-same d c r same =
    elim (Bool-cases (c.listening && is_text (response_type c.id) (get? (codes "type") d))) [
      | inl mine ↦ rw mine (settled-same c.outcome _ r same)
      | inr other ↦ rw other same
    ]

on_time-same :
    (t : ℕ) (c : Call) (r : Result Value) → c.outcome ≡ some r → (on_time t c).outcome ≡ some r
unfolding on_time
on_time-same t c r same = elim (Bool-cases (c.timer && leb c.deadline t)) [
  | inl fires ↦ rw fires (settled-same c.outcome _ r same)
  | inr quiet ↦ rw quiet same
]

-- The handler listens exactly while the promise is pending.
abbrev IsHooked : Call → Type 0
IsHooked c = not (is_settled c.outcome) ≡ c.listening

on_message-IsHooked : (d : Value) (c : Call) → IsHooked c → IsHooked (on_message d c)
unfolding on_message
on_message-IsHooked d c h =
    elim (Bool-cases (c.listening && is_text (response_type c.id) (get? (codes "type") d))) [
      | inl mine ↦ rw (mine, settled-stays) refl
      | inr other ↦ rw other h
    ]

on_time-IsHooked : (t : ℕ) (c : Call) → IsHooked c → IsHooked (on_time t c)
unfolding on_time
on_time-IsHooked t c h = elim (Bool-cases (c.timer && leb c.deadline t)) [
  | inl fires ↦ rw (fires, settled-stays) refl
  | inr quiet ↦ rw quiet h
]

run-IsHooked :
    (es : List PageEvent) (p : Page) → All IsHooked p.calls → All IsHooked (page_run es p).calls
unfolding page_run page_step call new_call is_settled
run-IsHooked [] p h = h
run-IsHooked (called op params ∷ es) p h =
    run-IsHooked es (page_step (called op params) p) (refl, h)
run-IsHooked (received d ∷ es) p h =
    run-IsHooked es (page_step (received d) p)
      (All-map (on_message d) IsHooked IsHooked p.calls (on_message-IsHooked d) h)
run-IsHooked (waited ms ∷ es) p h =
    run-IsHooked es (page_step (waited ms) p)
      (All-map (on_time (p.now + ms)) IsHooked IsHooked p.calls (on_time-IsHooked (p.now + ms)) h)

-- Whatever happens on a page, a call of the extension bridge has its message handler on the window
-- exactly while its promise is pending: it is removed when the promise is settled, by a response or
-- by the timer, and not before.
pub page_run-listening :
    (es : List PageEvent) (now : ℕ)
    → All (λ c. not (is_settled c.outcome) ≡ c.listening) (page_run es (new_page now)).calls
unfolding new_page
page_run-listening es now = run-IsHooked es (new_page now) tt

-- The call with an id.
call_of : Text → List Call → Option Call
call_of id [] = none
call_of id (c ∷ cs) = if text_eq c.id id then some c else call_of id cs

call_of-promise :
    (id : Text) (cs : List Call) {c : Call} → call_of id cs ≡ some c → promise id cs ≡ c.outcome
unfolding call_of promise
call_of-promise id [] h = cc
call_of-promise id (b ∷ cs) {c} h = elim (Bool-cases (text_eq b.id id)) [
  | inl mine ↦ rw mine (
      ap (λ (o : Option Call). elim o [ none ↦ b.outcome | some a ↦ a.outcome ])
        (ap (λ x. if x then some b else call_of id cs) (sym mine) ∙ h))
  | inr other ↦
      rw other
        (call_of-promise id cs (ap (λ x. if x then some b else call_of id cs) (sym other) ∙ h))
]

call_of-map :
    (f : Call → Call) (id : Text) (cs : List Call) {c : Call}
    → ((b : Call) → (f b).id ≡ b.id)
    → call_of id cs ≡ some c
    → call_of id (map f cs) ≡ some (f c)
unfolding call_of
call_of-map f id [] ids h = cc
call_of-map f id (b ∷ cs) {c} ids h = elim (Bool-cases (text_eq b.id id)) [
  | inl mine ↦
      ap (λ x. if x then some (f b) else call_of id (map f cs))
        (ap (λ i. text_eq i id) (ids b) ∙ mine)
      ∙ ap (λ (o : Option Call). elim o [ none ↦ none | some a ↦ some (f a) ])
          (ap (λ x. if x then some b else call_of id cs) (sym mine) ∙ h)
  | inr other ↦
      ap (λ x. if x then some (f b) else call_of id (map f cs))
        (ap (λ i. text_eq i id) (ids b) ∙ other)
      ∙ call_of-map f id cs ids (ap (λ x. if x then some b else call_of id cs) (sym other) ∙ h)
]

call_of-WasGiven :
    (id : Text) (seq : ℕ) (cs : List Call) {c : Call}
    → All (WasGiven seq) cs
    → call_of id cs ≡ some c
    → (n : ℕ) × (t : ℕ) × (n ≤ seq) × (id ≡ request_id n t)
unfolding call_of
call_of-WasGiven id seq [] given h = cc
call_of-WasGiven id seq (b ∷ cs) {c} ((n, t, small, same), given) h =
    elim (Bool-cases (text_eq b.id id)) [
      | inl mine ↦ (n, t, small, sym ((text_eq_iff b.id id).0 mine) ∙ same)
      | inr other ↦
          call_of-WasGiven id seq cs given
            (ap (λ x. if x then some b else call_of id cs) (sym other) ∙ h)
    ]

-- A new call does not hide an older one.
call-call_of :
    (op : Text) (params : Value) (p : Page) (id : Text) {c : Call}
    → IsNumbered p
    → call_of id p.calls ≡ some c
    → call_of id (page_step (called op params) p).calls ≡ some c
unfolding page_step call new_call call_of
call-call_of op params p id {c} given h =
    let (n, t, small, same) = call_of-WasGiven id p.ext_seq p.calls given h in
    ap
      (λ b.
        if b then some (new_call (request_id (p.ext_seq + 1) p.now) p.now) else call_of id p.calls)
      (text_eq_ne (request_id (p.ext_seq + 1) p.now) id (λ e.
        let number : p.ext_seq + 1 ≡ n = request_id-inj (p.ext_seq + 1) n p.now t (e ∙ same) in
        omega arith))
    ∙ h

received-call_of :
    (d : Value) (p : Page) (id : Text) {c : Call}
    → call_of id p.calls ≡ some c
    → call_of id (page_step (received d) p).calls ≡ some (on_message d c)
unfolding page_step
received-call_of d p id h = call_of-map (on_message d) id p.calls (on_message-id d) h

waited-call_of :
    (ms : ℕ) (p : Page) (id : Text) {c : Call}
    → call_of id p.calls ≡ some c
    → call_of id (page_step (waited ms) p).calls ≡ some (on_time (p.now + ms) c)
unfolding page_step
waited-call_of ms p id h = call_of-map (on_time (p.now + ms)) id p.calls (on_time-id (p.now + ms)) h

run-outcome :
    (es : List PageEvent) (p : Page) (id : Text) (r : Result Value) (c : Call)
    → IsNumbered p
    → call_of id p.calls ≡ some c
    → c.outcome ≡ some r
    → promise id (page_run es p).calls ≡ some r
unfolding page_run
run-outcome [] p id r c given h same = call_of-promise id p.calls h ∙ same
run-outcome (called op params ∷ es) p id r c given h same =
    run-outcome es (page_step (called op params) p) id r c
      (step-IsNumbered (called op params) p given) (call-call_of op params p id given h) same
run-outcome (received d ∷ es) p id r c given h same =
    run-outcome es (page_step (received d) p) id r (on_message d c)
      (step-IsNumbered (received d) p given) (received-call_of d p id h)
      (on_message-same d c r same)
run-outcome (waited ms ∷ es) p id r c given h same =
    run-outcome es (page_step (waited ms) p) id r (on_time (p.now + ms) c)
      (step-IsNumbered (waited ms) p given) (waited-call_of ms p id h)
      (on_time-same (p.now + ms) c r same)

run-IsNumbered : (es : List PageEvent) (p : Page) → IsNumbered p → IsNumbered (page_run es p)
unfolding page_run
run-IsNumbered [] p given = given
run-IsNumbered (e ∷ es) p given = run-IsNumbered es (page_step e p) (step-IsNumbered e p given)

-- The message that answers a call, and whether an event is one.
abbrev pub response_message : Text → Value → Value
response_message id response = object (
    (codes "type", str (codes "ROOTED_WALLET_RESPONSE_" ++ id)) ∷ (codes "response", response) ∷ [])

unfoldable pub answers : Text → PageEvent → Bool
unfolding is_text get?
answers id (received d) = is_text (codes "ROOTED_WALLET_RESPONSE_" ++ id) (get? (codes "type") d)
answers id (called op params) = false
answers id (waited ms) = false

-- The milliseconds that pass.
unfoldable pub elapsed : List PageEvent → ℕ
elapsed [] = 0
elapsed (called op params ∷ es) = elapsed es
elapsed (received d ∷ es) = elapsed es
elapsed (waited ms ∷ es) = ms + elapsed es

on_message-other :
    (d : Value) (id : Text) (start : ℕ)
    → answers id (received d) ≡ false
    → on_message d (new_call id start) ≡ new_call id start
unfolding answers on_message new_call
on_message-other d id start other = rw other refl

on_time-early :
    (t : ℕ) (id : Text) (start : ℕ)
    → t < start + 120000
    → on_time t (new_call id start) ≡ new_call id start
unfolding on_time new_call
on_time-early t id start early = elim (Bool-cases (leb (start + 120000) t)) [
  | inl fires ↦ absurd (ground arith)
  | inr quiet ↦ rw quiet refl
]

-- A call that is not answered yet waits as it was made.
run-waiting :
    (es : List PageEvent) (p : Page) (id : Text) (start : ℕ)
    → IsNumbered p
    → call_of id p.calls ≡ some (new_call id start)
    → All (λ e. answers id e ≡ false) es
    → p.now + elapsed es < start + 120000
    → call_of id (page_run es p).calls ≡ some (new_call id start)
unfolding page_run page_step call elapsed
run-waiting [] p id start given h quiet early = h
run-waiting (called op params ∷ es) p id start given h (_, quiet) early =
    run-waiting es (page_step (called op params) p) id start
      (step-IsNumbered (called op params) p given) (call-call_of op params p id given h) quiet early
run-waiting (received d ∷ es) p id start given h (other, quiet) early =
    run-waiting es (page_step (received d) p) id start (step-IsNumbered (received d) p given)
      (received-call_of d p id h ∙ ap some (on_message-other d id start other)) quiet early
run-waiting (waited ms ∷ es) p id start given h (_, quiet) early =
    run-waiting es (page_step (waited ms) p) id start (step-IsNumbered (waited ms) p given)
      (waited-call_of ms p id h ∙ ap some (on_time-early (p.now + ms) id start (omega arith))) quiet
      (omega arith)

new_call-answered :
    (id : Text) (start : ℕ) (response : Value)
    → (on_message (response_message id response) (new_call id start)).outcome
      ≡ some (answer response)
unfolding on_message new_call is_text get? find settled response_type
new_call-answered id start response = rw (text_eq_refl (codes "ROOTED_WALLET_RESPONSE_" ++ id)) refl

-- The id that the next call of a page gets.
abbrev pub next_id : Page → Text
next_id p = request_id (p.ext_seq + 1) p.now

run-answered :
    (between later : List PageEvent) (p : Page) (op : Text) (params response : Value)
    → IsNumbered p
    → All (λ e. answers (next_id p) e ≡ false) between
    → elapsed between < 120000
    → promise
        (next_id p)
        (page_run
          (received (response_message (next_id p) response) ∷ later)
          (page_run between (page_step (called op params) p))).calls
      ≡ some (answer response)
unfolding page_run page_step call call_of new_call
run-answered between later p op params response given quiet early =
    let id = next_id p in
    let m = response_message id response in
    let asked = page_step (called op params) p in
    let waiting = page_run between asked in
    let asked_given = step-IsNumbered (called op params) p given in
    let there =
      run-waiting between asked id p.now asked_given (rw (text_eq_refl (next_id p)) refl) quiet
        (omega arith) in
    run-outcome later (page_step (received m) waiting) id (answer response)
      (on_message m (new_call id p.now))
      (step-IsNumbered (received m) waiting (run-IsNumbered between asked asked_given))
      (received-call_of m waiting id there) (new_call-answered id p.now response)

-- A call on any page, whose response comes within 120 s of the page's time, whatever other calls,
-- messages and waits (none of them a response with its id) come between: with a response of the form
-- {result} its promise resolves to the result, with one of the form {error} and a text that is not
-- empty it is rejected with that text; and so it stays, whatever happens afterwards.
pub call-answered :
    (before between later : List PageEvent) (now : ℕ) (op : Text) (params result : Value) (u : ℕ)
    (reason : Text)
    → All (λ e. answers (next_id (page_run before (new_page now))) e ≡ false) between
    → elapsed between < 120000
    → let p = page_run before (new_page now) in
      let waiting = page_run between (page_step (called op params) p) in
      let id = next_id p in
      (promise id
          (page_run
            (received (response_message id (object ((codes "result", result) ∷ []))) ∷ later)
            waiting).calls
        ≡ some (ok result))
      × (promise id
            (page_run
              (received (response_message id (object ((codes "error", str (u ∷ reason)) ∷ [])))
                ∷ later)
              waiting).calls
          ≡ some (err (message (u ∷ reason))))
unfolding new_page answer result_part has_key find get? truthy to_text
call-answered before between later now op params result u reason quiet early =
    let p = page_run before (new_page now) in
    let given = run-IsNumbered before (new_page now) tt in
    (
      run-answered between later p op params (object ((codes "result", result) ∷ [])) given quiet
          early,
      run-answered between later p op params (object ((codes "error", str (u ∷ reason)) ∷ [])) given
          quiet early,
    )
