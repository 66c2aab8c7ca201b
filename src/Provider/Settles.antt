-- ===== src/Provider/Settles.antt =====
-- The promises of extensionBridge: each is settled in time, and ids are not given out twice.
use widespread_logos.Prelude.{
  ℕ, ◌+◌, ◌≤◌, leb, ◌==◌, Bool, true, false, ◌&&◌, ◌||◌, Option, none, some, List, [], ◌∷◌, ◌++◌,
  map, drop, Text, codes, text_eq, All, Result, if◌then◌else◌, ◌≡◌, refl, ap, sym, ◌∙◌, arith,
  Bool-cases, inl, inr,
}
use widespread_logos.Platform.{decimal}
use widespread_logos.Platform.Decimal.{decimal-plain, decimal-inj}
use widespread_logos.Platform.Json.{Value, get?}
use widespread_logos.Backends.Pwa.Surface.{is_text}
use widespread_logos.Provider.Extension.{
  Call, Page, PageEvent, called, received, waited, page_step, page_run, new_page, new_call, call,
  on_message, on_time, request_id, response_type, settled, timeout_ms,
}

unfoldable pub is_settled : Option (Result Value) → Bool
is_settled none = false
is_settled (some r) = true

-- A call that waits still has its timer, which fires in at most 120 s.
unfoldable pub timed : ℕ → Call → Bool
unfolding is_settled
timed now c = is_settled c.outcome || (c.timer && leb c.deadline (now + timeout_ms))

pub settled-stays : (o : Option (Result Value)) (r : Result Value) → is_settled (settled o r) ≡ true
unfolding is_settled settled
settled-stays none r = refl
settled-stays (some q) r = refl

on_message-timed :
    (d : Value) (now : ℕ) (c : Call) → timed now c ≡ true → timed now (on_message d c) ≡ true
unfolding timed on_message
on_message-timed d now c h =
    elim (Bool-cases (c.listening && is_text (response_type c.id) (get? (codes "type") d))) [
      | inl mine ↦ rw (mine, settled-stays) refl
      | inr other ↦ rw other h
    ]

on_time-timed : (t now : ℕ) (c : Call) → now ≤ t → timed now c ≡ true → timed t (on_time t c) ≡ true
unfolding timed on_time
on_time-timed t now c later h = elim (Bool-cases (c.timer && leb c.deadline t)) [
  | inl fires ↦ rw (fires, settled-stays) refl
  | inr quiet ↦ rw quiet (ground arith)
]

-- When 120 s have passed since a call was still in time, its promise is settled.
on_time-settles :
    (now : ℕ) (c : Call)
    → timed now c ≡ true
    → is_settled ((on_time (now + timeout_ms) c).outcome) ≡ true
unfolding timed on_time
on_time-settles now c h = elim (Bool-cases (c.timer && leb c.deadline (now + timeout_ms))) [
  | inl fires ↦ rw (fires, settled-stays) refl
  | inr quiet ↦ rw quiet (ground arith)
]

pub All-map :
    {A : Type 0} (f : A → A) (P Q : A → Type 0) (xs : List A)
    → ((a : A) → P a → Q (f a))
    → All P xs
    → All Q (map f xs)
All-map f P Q [] k h = tt
All-map f P Q (x ∷ xs) k (p, h) = (k x p, All-map f P Q xs k h)

abbrev IsTimed : Page → Type 0
IsTimed p = All (λ c. timed p.now c ≡ true) p.calls

new_call-timed : (id : Text) (now : ℕ) → timed now (new_call id now) ≡ true
unfolding timed new_call
new_call-timed id now = ground arith

step-IsTimed : (e : PageEvent) (p : Page) → IsTimed p → IsTimed (page_step e p)
unfolding page_step call
step-IsTimed (called op params) p h = (new_call-timed _ p.now, h)
step-IsTimed (received d) p h =
    All-map (on_message d) (λ c. timed p.now c ≡ true) (λ c. timed p.now c ≡ true) p.calls
      (on_message-timed d p.now) h
step-IsTimed (waited ms) p h =
    All-map (on_time (p.now + ms)) (λ c. timed p.now c ≡ true) (λ c. timed (p.now + ms) c ≡ true)
      p.calls (λ c. on_time-timed (p.now + ms) p.now c (omega arith)) h

run-IsTimed : (es : List PageEvent) (p : Page) → IsTimed p → IsTimed (page_run es p)
unfolding page_run
run-IsTimed [] p h = h
run-IsTimed (e ∷ es) p h = run-IsTimed es (page_step e p) (step-IsTimed e p h)

-- Whatever has happened on a page, once 120 s more have passed every promise of the extension bridge
-- is settled, answered or not.
pub page_run-settles :
    (es : List PageEvent) (now : ℕ)
    → All
        (λ c. is_settled c.outcome ≡ true)
        (page_step (waited timeout_ms) (page_run es (new_page now))).calls
unfolding page_step new_page
page_run-settles es now =
    All-map (on_time ((page_run es (new_page now)).now + timeout_ms))
      (λ c. timed (page_run es (new_page now)).now c ≡ true) (λ c. is_settled c.outcome ≡ true)
      (page_run es (new_page now)).calls (on_time-settles (page_run es (new_page now)).now)
      (run-IsTimed es (new_page now) tt)

-- The text before the first dash.
before_dash : Text → Text
before_dash [] = []
before_dash (u ∷ s) = if u == b'-' then [] else u ∷ before_dash s

before_dash-append :
    (s t : Text) → All (λ u. (u == b'-') ≡ false) s → before_dash (s ++ b'-' ∷ t) ≡ s
unfolding before_dash
before_dash-append [] t h = refl
before_dash-append (u ∷ s) t (plain, h) = rw (plain, before_dash-append s t h) refl

request_id-number : (seq now : ℕ) → before_dash (drop 4 (request_id seq now)) ≡ decimal seq
unfolding request_id
request_id-number seq now = before_dash-append (decimal seq) (decimal now) (decimal-plain seq)

-- Calls with different numbers have different ids, at whatever time they are made.
pub request_id-inj : (m n t u : ℕ) → request_id m t ≡ request_id n u → m ≡ n
request_id-inj m n t u same =
    decimal-inj m n
      (sym (request_id-number m t) ∙ ap (λ s. before_dash (drop 4 s)) same ∙ request_id-number n u)

-- The promise of the call with an id.
unfoldable pub promise : Text → List Call → Option (Result Value)
promise id [] = none
promise id (c ∷ cs) = if text_eq c.id id then c.outcome else promise id cs

-- Every id is one that the page has given out.
abbrev pub IsNumbered : Page → Type 0
IsNumbered p = All (λ c. (n : ℕ) × (t : ℕ) × (n ≤ p.ext_seq) × (c.id ≡ request_id n t)) p.calls

pub on_message-id : (d : Value) (c : Call) → (on_message d c).id ≡ c.id
unfolding on_message
on_message-id d c =
    elim (Bool-cases (c.listening && is_text (response_type c.id) (get? (codes "type") d))) [
      | inl mine ↦ rw mine refl
      | inr other ↦ rw other refl
    ]

pub on_time-id : (t : ℕ) (c : Call) → (on_time t c).id ≡ c.id
unfolding on_time
on_time-id t c = elim (Bool-cases (c.timer && leb c.deadline t)) [
  | inl fires ↦ rw fires refl
  | inr quiet ↦ rw quiet refl
]

abbrev pub WasGiven : ℕ → Call → Type 0
WasGiven seq c = (n : ℕ) × (t : ℕ) × (n ≤ seq) × (c.id ≡ request_id n t)

pub step-IsNumbered : (e : PageEvent) (p : Page) → IsNumbered p → IsNumbered (page_step e p)
unfolding page_step call new_call
step-IsNumbered (called op params) p h =
    ((p.ext_seq + 1, p.now, omega arith, refl), All-weaken p.calls h)
  where
    All-weaken : (cs : List Call) → All (WasGiven p.ext_seq) cs → All (WasGiven (p.ext_seq + 1)) cs
    All-weaken [] k = tt
    All-weaken (c ∷ cs) ((n, t, small, same), k) = ((n, t, omega arith, same), All-weaken cs k)
step-IsNumbered (received d) p h =
    All-map (on_message d) (WasGiven p.ext_seq) (WasGiven p.ext_seq) p.calls
      (λ c k. (k.0, k.1, k.2, on_message-id d c ∙ k.3)) h
step-IsNumbered (waited ms) p h =
    All-map (on_time (p.now + ms)) (WasGiven p.ext_seq) (WasGiven p.ext_seq) p.calls
      (λ c k. (k.0, k.1, k.2, on_time-id (p.now + ms) c ∙ k.3)) h
