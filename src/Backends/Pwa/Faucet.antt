-- ===== src/Backends/Pwa/Faucet.antt =====
-- faucetInfo: the state of the faucet, and what its answer says of a claim.
use widespread_logos.Prelude.{
  ℕ, ◌/◌, ◌≤◌, Bool, true, false, Option, none, some, [], ◌∷◌, Text, Bytes, codes, ltb, ◌==◌,
  length, if◌then◌else◌, ℤ, pos, negsuc, Result, ok, ◌≡◌, refl, arith,
}
use mathlib.Core.Path.{subst, ap, ◌∙◌}
use widespread_logos.Prelude.Errors.{◌>>=◌, >>=-eq-ok, ok-inj}
use widespread_logos.Platform.BigNumber.{big_int, big_text, big_div, big_less}
use widespread_logos.Backends.Pwa.{
  NumberOrText, number, Sequencer, PwaBackend, FlatAccount, flat, get_account, data_bytes,
  pinata_account, pinata_prize, max_supported_difficulty,
}

pub record FaucetInfo : Type 0 where
  pub pool : Text
  pub claims : Text
  pub difficulty : ℕ
  pub available : Bool
  pub blocked_reason : Option Text

-- `BigInt(acct?.balance ?? 0)`
unfoldable pub pool_of : Option NumberOrText → Result ℤ
unfolding big_int
pool_of none = ok (pos 0)
pool_of (some (number n)) = ok (pos n)
pool_of (some (NumberOrText.text s)) = big_int s

first_byte : Bytes → ℕ
first_byte [] = 0
first_byte (b ∷ bs) = b

unfoldable pub difficulty_of : Bytes → ℕ
unfolding first_byte
difficulty_of d = if length d == 33 then first_byte d else 0

unfoldable pub blocked : ℤ → ℕ → Option Text
unfolding big_less
blocked pool difficulty =
    if big_less pool pinata_prize
    then some (codes "pool_depleted")
    else if ltb max_supported_difficulty difficulty
    then some (codes "unsupported_difficulty")
    else none

unfoldable pub is_none : Option Text → Bool
is_none none = true
is_none (some _) = false

unfoldable pub faucet_state : ℤ → ℕ → FaucetInfo
unfolding blocked big_text big_div is_none
faucet_state pool difficulty = record {
  pool = big_text pool;
  claims = big_text (big_div pool pinata_prize);
  difficulty = difficulty;
  available = is_none (blocked pool difficulty);
  blocked_reason = blocked pool difficulty;
}

unfoldable pub account_faucet : FlatAccount → Result FaucetInfo
unfolding pool_of difficulty_of
account_faucet f =
    pool_of f.balance >>= λ pool. ok (faucet_state pool (difficulty_of (data_bytes f.data_of)))

unfoldable pub faucet_info : Sequencer → PwaBackend → Result FaucetInfo
unfolding account_faucet
faucet_info sequencer w = get_account sequencer w pinata_account >>= λ a. account_faucet (flat a)

faucet_state-available :
    (pool : ℤ) (difficulty : ℕ)
    → (faucet_state pool difficulty).available ≡ true
    → (n : ℕ) × (pool ≡ pos n) × (pinata_prize ≤ n) × (difficulty ≤ max_supported_difficulty)
unfolding faucet_state blocked big_less is_none
faucet_state-available (pos n) difficulty shown = (n, refl, ground arith, ground arith)
faucet_state-available (negsuc n) difficulty shown = cc

pool-prize : {n : ℕ} → pinata_prize ≤ n → 1 ≤ n / pinata_prize
pool-prize h = omega arith

abbrev Shown : FaucetInfo → Type 0
Shown info =
    (n : ℕ) × (info.pool ≡ big_text (pos n))
    × (info.claims ≡ big_text (pos (n / pinata_prize)))
    × (1 ≤ n / pinata_prize)
    × (info.difficulty ≤ max_supported_difficulty)

state-Shown :
    (pool : ℤ) (difficulty : ℕ)
    → (faucet_state pool difficulty).available ≡ true
    → Shown (faucet_state pool difficulty)
unfolding faucet_state big_div
state-Shown (pos n) difficulty shown =
    let (_, _, h, g) = faucet_state-available (pos n) difficulty shown in
    (n, refl, refl, ground arith, ground arith)
state-Shown (negsuc n) difficulty shown = cc

info-Shown :
    (pool : ℤ) (difficulty : ℕ) {info : FaucetInfo}
    → faucet_state pool difficulty ≡ info
    → info.available ≡ true
    → Shown info
info-Shown pool difficulty same shown =
    subst Shown same
      (state-Shown pool difficulty (ap (λ (i : FaucetInfo). i.available) same ∙ shown))

account-Shown :
    (f : FlatAccount) {info : FaucetInfo}
    → account_faucet f ≡ ok info
    → info.available ≡ true
    → Shown info
unfolding account_faucet
account-Shown f answered shown =
    let difficulty = difficulty_of (data_bytes f.data_of) in
    let (pool, _, last) =
      >>=-eq-ok (pool_of f.balance) (λ pool. ok (faucet_state pool difficulty)) answered in
    info-Shown pool difficulty (ok-inj last) shown

-- Whenever the faucet is shown as available, the pool that is shown holds at least one prize, the
-- number of claims that is shown is at least one and the difficulty is one that the wallet solves.
pub faucet_info-available :
    (sequencer : Sequencer) (w : PwaBackend) {info : FaucetInfo}
    → faucet_info sequencer w ≡ ok info
    → info.available ≡ true
    → (n : ℕ) × (info.pool ≡ big_text (pos n))
      × (info.claims ≡ big_text (pos (n / pinata_prize)))
      × (1 ≤ n / pinata_prize)
      × (info.difficulty ≤ max_supported_difficulty)
unfolding faucet_info
faucet_info-available sequencer w {info} answered shown =
    let (a, _, rest) =
      >>=-eq-ok (get_account sequencer w pinata_account) (λ a. account_faucet (flat a)) answered in
    account-Shown (flat a) rest shown
