-- ===== src/Social/Ends.antt =====
-- The device flow ends.
use widespread_logos.Prelude.{
  ℕ, zero, suc, ◌+◌, ◌*◌, ◌<◌, ◌≤◌, Bool, true, false, not, Option, some, Text, ltb, Result, ok,
  err, message, codes, if◌then◌else◌, ◌≡◌, refl, arith, Bool-cases, inl, inr, ap, ◌∙◌, sym,
}
use widespread_logos.Social.{
  SocialIdentity, DeviceCode, PollBody, Browser, Round, finished, again, poll_round, round, max,
  poll_loop, start_polling, device_answered, code_read, github_device_sign_in, present, is_final,
  DeviceResponse,
}

-- Time passes: a timer fires no earlier than it was set for, and no request turns the clock back.
pub record Clocked {Host : Type 0} (b : Browser Host) : Type 0 where
  pub wait-now : (ms : ℕ) (h : Host) → b.now h + ms ≤ b.now (b.wait ms h)
  pub poll-now : (id code : Text) (h : Host) → b.now h ≤ b.now (b.poll id code h).1

max-le : (i : ℕ) → 5 ≤ max i 5
unfolding max
max-le i = ground arith

module _ {Host : Type 0} (b : Browser Host) where
  goes-on :
      (t : Bool) (r : Result SocialIdentity × Host) (rest : Round Host) {next : Host}
      → (if t then finished r else rest) ≡ again next
      → rest ≡ again next
  goes-on true r rest same = cc
  goes-on false r rest same = same

  again-inj : {h next : Host} → Round.again h ≡ again next → h ≡ next
  again-inj same = cc

  -- A poll that goes on is one that answered.
  poll_round-again :
      (o : Result PollBody × Host) {next : Host} → poll_round b o ≡ again next → o.1 ≡ next
  unfolding poll_round
  poll_round-again (err e, h) same = cc
  poll_round-again (ok body, h) same =
      again-inj (goes-on (is_final body.error) _ _ (goes-on (present body.access_token) _ _ same))

  module _ (clocked : Clocked b) (client_id : Text) (device : DeviceCode) (deadline : ℕ) where
    -- A round that goes on takes five seconds or more, and began before the deadline.
    round-again :
        (h : Host) {next : Host}
        → round b client_id device deadline h ≡ again next
        → (b.now h < deadline) × (b.now h + 5000 ≤ b.now next)
    unfolding round
    round-again h {next} same = elim (Bool-cases (ltb (b.now h) deadline)) [
      | inl early ↦ (
        ground arith,
        later (
            poll_round-again (b.poll client_id device.device_code waited)
              (sym (ap branch early) ∙ same)),
      )
      | inr late ↦ ended (sym (ap branch late) ∙ same)
    ]
      where
        waited : Host
        waited = b.wait (max device.interval 5 * 1000) h

        branch : Bool → Round Host
        branch t =
            if t
            then poll_round b (b.poll client_id device.device_code waited)
            else finished (err (message (codes "device flow expired")), h)

        ended : {A : Type 0} {r : Result SocialIdentity × Host} → finished r ≡ again next → A
        ended same = cc

        later : (b.poll client_id device.device_code waited).1 ≡ next → b.now h + 5000 ≤ b.now next
        later arrived = omega (
          arith,
          max-le device.interval,
          clocked.wait-now (max device.interval 5 * 1000) h,
          clocked.poll-now client_id device.device_code waited,
          ap b.now arrived,
        )

    abbrev Terminates : ℕ → Host → Type 0
    Terminates fuel h =
        (r : Result SocialIdentity × Host) × (poll_loop b fuel client_id device deadline h ≡ some r)

    round-Terminates :
        (fuel : ℕ) (o : Round Host)
        → ((next : Host) → o ≡ again next → Terminates fuel next)
        → (r : Result SocialIdentity × Host) × ((elim o [
          | finished r ↦ some r
          | again next ↦ poll_loop b fuel client_id device deadline next
        ])
            ≡ some r)
    round-Terminates fuel (finished r) rest = (r, refl)
    round-Terminates fuel (again next) rest = rest next refl

    -- Fuel for the seconds that are left is enough.
    loop-Terminates :
        (fuel : ℕ) (h : Host) → deadline ≤ b.now h + 5000 * fuel → Terminates (suc fuel) h
    unfolding poll_loop
    loop-Terminates zero h near =
        round-Terminates zero (round b client_id device deadline h)
          (λ next same. let (early, _) = round-again h same in absurd (omega (arith, early, near)))
    loop-Terminates (suc fuel) h near =
        round-Terminates (suc fuel) (round b client_id device deadline h) (λ next same.
          let (_, later) = round-again h same in
          loop-Terminates fuel next (omega (arith, later, near)))

start-ends :
    {Host : Type 0} (b : Browser Host)
    → Clocked b
    → (client_id : Text) (device : DeviceCode) (h : Host)
    → (r : Result SocialIdentity × Host) × (start_polling b client_id device h ≡ some r)
unfolding start_polling
start-ends b clocked client_id device h =
    let shown = b.show_code device.user_code device.verification_uri h in
    loop-Terminates b clocked client_id device (b.now shown + device.expires_in * 1000)
      device.expires_in shown (omega arith)

code-ends :
    {Host : Type 0} (b : Browser Host)
    → Clocked b
    → (client_id : Text) (h : Host) (code : Result DeviceCode)
    → (r : Result SocialIdentity × Host) × (code_read b client_id h code ≡ some r)
unfolding code_read
code-ends b clocked client_id h (err e) = (_, refl)
code-ends b clocked client_id h (ok device) = start-ends b clocked client_id device h

some-if :
    {A : Type 0} (t : Bool) (x : A) (o : Option A)
    → ((r : A) × (o ≡ some r))
    → (r : A) × ((if t then some x else o) ≡ some r)
some-if true x o found = (x, refl)
some-if false x o found = found

answered-ends :
    {Host : Type 0} (b : Browser Host)
    → Clocked b
    → (client_id : Text) (o : Result DeviceResponse × Host)
    → (r : Result SocialIdentity × Host) × (device_answered b client_id o ≡ some r)
unfolding device_answered
answered-ends b clocked client_id (err e, h) = (_, refl)
answered-ends b clocked client_id (ok res, h) =
    some-if (not res.is_ok) _ _ (code-ends b clocked client_id h res.json)

-- If a timer fires no earlier than it was set for and the clock does not go back, then the GitHub sign-in
-- ends with an identity or an error, whatever the network answers to its polls: the fuel given is
-- never spent.
pub github_device_sign_in-ends :
    {Host : Type 0} (b : Browser Host)
    → Clocked b
    → (client_id : Text) (h : Host)
    → (r : Result SocialIdentity × Host) × (github_device_sign_in b client_id h ≡ some r)
unfolding github_device_sign_in
github_device_sign_in-ends b clocked client_id h =
    answered-ends b clocked client_id (b.device client_id h)
