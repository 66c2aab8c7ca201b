-- ===== src/Provider/Events.antt =====
-- The events that the provider dispatches, and its flag `connected`.
use widespread_logos.Prelude.{Option, List, [], ◌∷◌, Text, codes, Result, ok, err, ◌≡◌, refl}
use widespread_logos.Prelude.Tasks.{Task, done, settle, resume, ◌>>=◌, ◌>>◌}
use widespread_logos.Platform.Json.{
  Value, undefined, null, bool, num, arr, obj, object, str, get, get?,
}
use widespread_logos.Backends.Seam.{text_option}
use widespread_logos.Provider.{
  BridgeCall, Session, Entry, dispatched, requested, tx_pending, tx_confirmed, DappInfo,
  ProgramCallSpec, TransferSpec, PrivateDestination, transfer_value, transfer_params, call_value,
  call, emit, confirm_hash, set_connected, connect, accounts_of, has_length, transfer,
  propose_transaction, faucet_claim,
}

-- The calls that send a transaction.
pub data Sending : Type 0 where
  a_transfer : TransferSpec → Sending
  a_call : ProgramCallSpec → Sending
  a_claim : Text → Sending

unfoldable pub send : {Host : Type 0} → BridgeCall Host → Sending → Task (Session Host) Value
send bridge (a_transfer t) = transfer bridge t
send bridge (a_call c) = propose_transaction bridge c
send bridge (a_claim account) = faucet_claim bridge account

-- What txPending carries.
unfoldable pub pending_detail : Sending → Value
pending_detail (a_transfer t) = transfer_value t
pending_detail (a_call c) = call_value c
pending_detail (a_claim account) = object ((codes "faucet", str account) ∷ [])

-- The hash in what the call returns.
unfoldable pub sent_hash : Sending → Value → Value
unfolding get?
sent_hash (a_transfer t) v = v
sent_hash (a_call c) v = v
sent_hash (a_claim account) v = get? (codes "tx_hash") v

-- What the bridge is asked.
unfoldable pub sent_op : Sending → Text
sent_op (a_transfer t) = codes "lez_sendTransaction"
sent_op (a_call c) = codes "lez_programCall"
sent_op (a_claim account) = codes "lez_faucetClaim"

unfoldable pub sent_params : Sending → Value
sent_params (a_transfer t) = object (
    (codes "from", str t.from)
    ∷ (codes "to", text_option t.to)
    ∷ (codes "amount", str t.amount)
    ∷ [])
sent_params (a_call c) = call_value c
sent_params (a_claim account) = object ((codes "account", str account) ∷ [])

-- What has happened when the request has been sent, the latest first.
abbrev pub sent_trace : Sending → List Entry → List Entry
sent_trace x before =
    requested (sent_op x) (sent_params x) ∷ dispatched tx_pending (pending_detail x) ∷ before

-- The pending event, then the request, and then the confirmed event if the call returned.
abbrev pub Announced : {Host : Type 0} → Sending → List Entry → Result Value × Session Host → Type 0
Announced x before (err e, after) = after.trace ≡ sent_trace x before
Announced x before (ok v, after) =
    after.trace
    ≡ dispatched tx_confirmed (object ((codes "hash", sent_hash x v) ∷ [])) ∷ sent_trace x before

-- The flag after connect.
abbrev pub Connected : {Host : Type 0} → Session Host → Result Value × Session Host → Type 0
Connected before (err e, after) = after.connected ≡ before.connected
Connected before (ok accounts, after) = after.connected ≡ has_length accounts

module _ {Host : Type 0} (bridge : BridgeCall Host) where
  -- What stands after the call, whatever the bridge answers.
  hash-Announced :
      (x : Sending) (before : List Entry) (s : Session Host)
      → s.trace ≡ sent_trace x before
      → ((v : Value) → sent_hash x v ≡ v)
      → (o : Result Value × Host)
      → Announced x before
          (resume (o.0, record s { host = o.1 }) (λ hash. confirm_hash bridge hash >> done hash))
  unfolding confirm_hash emit ◌>>◌ done
  hash-Announced x before s pending same (err e, host) = pending
  hash-Announced x before s pending same (ok v, host) = rw (pending, same v) refl

  claim-Announced :
      (account : Text) (before : List Entry) (s : Session Host)
      → s.trace ≡ sent_trace (a_claim account) before
      → (o : Result Value × Host)
      → Announced (a_claim account) before (
          resume
            (o.0, record s { host = o.1 })
            (λ out.
              settle (get (codes "tx_hash") out) >>= λ hash. confirm_hash bridge hash >> done out))
  unfolding confirm_hash emit ◌>>◌ ◌>>=◌ done settle get get? sent_hash
  claim-Announced account before s pending (err e, host) = pending
  claim-Announced account before s pending (ok undefined, host) = pending
  claim-Announced account before s pending (ok null, host) = pending
  claim-Announced account before s pending (ok (bool _), host) = rw pending refl
  claim-Announced account before s pending (ok (num _), host) = rw pending refl
  claim-Announced account before s pending (ok (str _), host) = rw pending refl
  claim-Announced account before s pending (ok (arr _), host) = rw pending refl
  claim-Announced account before s pending (ok (obj _), host) = rw pending refl

  -- Every transfer, program call and faucet claim first dispatches txPending, then hands its request
  -- to the bridge, once, and then dispatches txConfirmed, with the hash that it returns, when it
  -- returns and only then; it dispatches and requests nothing else.
  pub send-Announced : (x : Sending) (s : Session Host) → Announced x s.trace (send bridge x s)
  unfolding send pending_detail sent_hash sent_op sent_params transfer transfer_params
      propose_transaction faucet_claim call emit confirm_hash ◌>>=◌ ◌>>◌ settle done
  send-Announced (a_transfer t) s =
      hash-Announced (a_transfer t) s.trace (record s { trace = sent_trace (a_transfer t) s.trace })
        refl (λ v. refl) (bridge (codes "lez_sendTransaction") (transfer_params bridge t) s.host)
  send-Announced (a_call c) s =
      hash-Announced (a_call c) s.trace (record s { trace = sent_trace (a_call c) s.trace }) refl
        (λ v. refl) (bridge (codes "lez_programCall") (call_value c) s.host)
  send-Announced (a_claim account) s =
      claim-Announced account s.trace (record s { trace = sent_trace (a_claim account) s.trace })
        refl
        (bridge (codes "lez_faucetClaim") (object ((codes "account", str account) ∷ [])) s.host)

  answer-Connected :
      (s : Session Host) (trace : List Entry) (o : Result Value × Host)
      → Connected s (
          resume
            (o.0, record s { trace = trace; host = o.1 })
            (λ out. settle (accounts_of out) >>= λ accounts.
              set_connected bridge (has_length accounts) >> done accounts))
  unfolding ◌>>=◌ ◌>>◌ settle done set_connected
  answer-Connected s trace (err e, host) = refl
  answer-Connected s trace (ok out, host) = from (accounts_of out)
    where
      from :
          (r : Result Value)
          → Connected s (
              resume
                (r, record s { trace = trace; host = host })
                (λ accounts. set_connected bridge (has_length accounts) >> done accounts))
      from (err e) = refl
      from (ok accounts) = refl

  -- After connect returns, the provider counts as connected exactly if the list of accounts that it
  -- returned is not empty; after it fails, the flag is what it was.
  pub connect-Connected :
      (info : DappInfo) (zone_name : Option Text) (s : Session Host)
      → Connected s (connect bridge info zone_name s)
  unfolding connect ◌>>=◌ call
  connect-Connected info zone_name s =
      answer-Connected s
        (requested (codes "lez_requestAccounts")
            (object ((codes "zone", text_option zone_name) ∷ []))
          ∷ s.trace)
        (bridge (codes "lez_requestAccounts") (object ((codes "zone", text_option zone_name) ∷ []))
          s.host)

  -- What was traced before a call changes neither its answer nor the wallet.
  same-sent :
      (s r : Session Host) (o : Result Value × Host)
      → ((resume (o.0, record s { host = o.1 }) (λ hash. confirm_hash bridge hash >> done hash)).0
          ≡ (resume
              (o.0, record r { host = o.1 })
              (λ hash. confirm_hash bridge hash >> done hash)).0)
        × ((resume
              (o.0, record s { host = o.1 })
              (λ hash. confirm_hash bridge hash >> done hash)).1.host
            ≡ (resume
                (o.0, record r { host = o.1 })
                (λ hash. confirm_hash bridge hash >> done hash)).1.host)
  unfolding confirm_hash emit ◌>>◌ done
  same-sent s r (err e, host) = (refl, refl)
  same-sent s r (ok v, host) = (refl, refl)

  -- A transfer that names a private destination is sent as the same transfer without it: the wallet
  -- gets the same request, and the answer is the same.
  pub transfer-drops_private :
      (t : TransferSpec) (d : Option PrivateDestination) (s : Session Host)
      → ((transfer bridge (record t { to_private = d }) s).0 ≡ (transfer bridge t s).0)
        × ((transfer bridge (record t { to_private = d }) s).1.host ≡ (transfer bridge t s).1.host)
  unfolding transfer transfer_params call emit confirm_hash sent_op sent_params pending_detail ◌>>=◌
      ◌>>◌ done
  transfer-drops_private t d s =
      same-sent (record s { trace = sent_trace (a_transfer (record t { to_private = d })) s.trace })
        (record s { trace = sent_trace (a_transfer t) s.trace })
        (bridge (codes "lez_sendTransaction") (transfer_params bridge t) s.host)
