-- ===== src/Signaling/Session/Rpc/Invariant.antt =====
-- What holds of a session between two steps, internal/signaling/session.go.
use native.Mathlib.Nat.{mod-eq_of_lt}
use go_ring.Common.{
  ℕ, ◌+◌, ◌%◌, ◌^◌, ◌≤◌, ◌<◌, ◌≡◌, refl, sym, ap, subst, ◌∙◌, inl, inr, true, false, none, some, [],
  ◌∷◌, Bytes, length, length-append, ◌==◌, ==_iff, arith, Bool-cases, Option-cases,
}
use go_ring.Common.Maps.{
  delete_of_nil, Map, lookup, insert, delete, lookup-insert, AllEntries, AllEntries-lookup,
  AllEntries-insert, AllEntries-delete, AllEntries-map, nat_eq_instance,
}
use go_ring.Common.Fallible.{ok, err}
use go_ring.Common.Decimal.{
  decimal-injective, append-injective, bytes_eq, bytes_eq_iff, bytes_eq_instance,
}
use go_ring.Signaling.Message.{Message}
use go_ring.Signaling.Session.{SessionError, RpcReply, Session}
use go_ring.Signaling.Session.Rpc.{
  RpcCommand, SessionJson, deliver, reply_of, handle, rpc_id, register, unregister,
}
use go_ring.Signaling.Session.Rpc.Routing.{handle_cases, deliver_lem, deliver_nobody}

-- A pending call: its channel is empty, its number has been given out, and its identity has it.
abbrev pub IsOpen : Bytes → ℕ → Map ℕ RpcReply → Bytes → ℕ → Type 0
IsOpen control sequence replies id ch =
    (lookup ch replies ≡ none) × (ch ≤ sequence) × (id ≡ rpc_id control ch)

pub record Inv (s : Session) : Type 0 where
  pub ended : s.closed ≡ true → s.pending ≡ []
  pub caused : s.closed ≡ true → (e : SessionError) × (s.terminal ≡ some e)
  pub within : length s.events ≤ 32
  pub opened : AllEntries (IsOpen s.control_id s.sequence s.replies) s.pending
  pub fresh : (ch : ℕ) → s.sequence < ch → lookup ch s.replies ≡ none

rpc_id-injective : (control : Bytes) (m n : ℕ) → rpc_id control m ≡ rpc_id control n → m ≡ n
rpc_id-injective control m n e =
    decimal-injective m n (append-injective (b'-' ∷ []) _ _ (append-injective control _ _ e))

abbrev next_call : Session → Session
next_call s = record s {
  sequence = s.sequence + 1;
  pending = insert (rpc_id s.control_id (s.sequence + 1)) (s.sequence + 1) s.pending;
}

register_lem :
    (s : Session)
    → s.closed ≡ false
    → s.sequence + 1 < 2 ^ 64
    → register s ≡ ok (next_call s, s.sequence + 1)
unfolding register
register_lem s live small =
    let number : (s.sequence + 1) % 2 ^ 64 ≡ s.sequence + 1 = mod-eq_of_lt small in
    rw live (rw number refl)

register_closed : (s : Session) → s.closed ≡ true → register s ≡ err s.terminal
unfolding register
register_closed s over = rw over refl

register_cases :
    (s t : Session) (n : ℕ)
    → s.sequence + 1 < 2 ^ 64
    → register s ≡ ok (t, n)
    → (s.closed ≡ false) × (next_call s ≡ t)
register_cases s t n small e = elim (Bool-cases s.closed) [
  | inl over ↦ absurd (cc (register_closed s over))
  | inr live ↦ (live, cc (register_lem s live small))
]

module _ (s : Session) (v : Inv s) where
  next_call-Inv : s.closed ≡ false → Inv (next_call s)
  next_call-Inv live = record {
    ended = λ c. absurd (ground arith);
    caused = λ c. absurd (ground arith);
    within = v.within;
    opened =
        AllEntries-insert _ (rpc_id s.control_id (s.sequence + 1)) (s.sequence + 1) s.pending
          (AllEntries-map _ _ s.pending (λ id ch o. (o.0, omega arith, o.2)) v.opened)
          (v.fresh (s.sequence + 1) (omega arith), omega arith, refl);
    fresh = λ ch h. v.fresh ch (omega arith);
  }

  pub register-Inv :
      (t : Session) (n : ℕ) → s.sequence + 1 < 2 ^ 64 → register s ≡ ok (t, n) → Inv t
  register-Inv t n small e =
      let (live, same) = register_cases s t n small e in subst Inv same (next_call-Inv live)

  pub unregister-Inv : (n : ℕ) → Inv (unregister s n)
  unfolding unregister
  unregister-Inv n = record {
    ended = λ c. delete_of_nil (rpc_id s.control_id n) s.pending (v.ended c);
    caused = v.caused;
    within = v.within;
    opened =
        AllEntries-map _ _ _ (λ id ch o. o.0)
          (AllEntries-delete _ (rpc_id s.control_id n) s.pending v.opened);
    fresh = v.fresh;
  }

  deliver_found :
      (json : SessionJson) (c : RpcCommand) (text : Bytes) (ch : ℕ)
      → lookup c.id s.pending ≡ some ch
      → Inv (record s {
        replies = insert ch (reply_of json c text) s.replies;
        pending = delete c.id s.pending;
      })
  deliver_found json c text ch e =
      let mine =
        AllEntries-lookup (IsOpen s.control_id s.sequence s.replies) c.id ch s.pending v.opened e in
      record {
        ended = λ over. delete_of_nil c.id s.pending (v.ended over);
        caused = v.caused;
        within = v.within;
        opened =
            AllEntries-map _ _ _ (λ id k o. (other ch k id mine.2 o.0.0 o.0.2 o.1, o.0.1, o.0.2))
              (AllEntries-delete _ c.id s.pending v.opened);
        fresh = λ k h. later ch k mine.1 h;
      }
    where
      later :
          (ch k : ℕ)
          → ch ≤ s.sequence
          → s.sequence < k
          → lookup k (insert ch (reply_of json c text) s.replies) ≡ none
      later ch k low high =
          let differ : ch == k ≡ false = ground arith in
          lookup-insert ch k (reply_of json c text) s.replies ∙ rw differ (v.fresh k high)

      other :
          (ch k : ℕ) (id : Bytes)
          → c.id ≡ rpc_id s.control_id ch
          → lookup k s.replies ≡ none
          → id ≡ rpc_id s.control_id k
          → bytes_eq id c.id ≡ false
          → lookup k (insert ch (reply_of json c text) s.replies) ≡ none
      other ch k id mine empty theirs differ = elim (Bool-cases (ch == k)) [
        | inl same ↦
            let number : ch ≡ k = (==_iff ch k).0 same in
            let equal : id ≡ c.id = theirs ∙ ap (rpc_id s.control_id) (sym number) ∙ sym mine in
            absurd (cc ((bytes_eq_iff id c.id).1 equal))
        | inr apart ↦ lookup-insert ch k (reply_of json c text) s.replies ∙ rw apart empty
      ]

  deliver-Inv : (json : SessionJson) (c : RpcCommand) (text : Bytes) → Inv (deliver json s c text)
  deliver-Inv json c text = elim (Option-cases (lookup c.id s.pending)) [
    | inl nobody ↦ subst Inv (sym (deliver_nobody json s c text nobody)) v
    | inr (ch, e) ↦
        subst Inv (sym (deliver_lem json s c text ch e)) (deliver_found json c text ch e)
  ]

  pub handle-Inv : (json : SessionJson) (now : ℕ) (m : Message) → Inv (handle json now s m).0
  handle-Inv json now m =
      handle_cases json Inv now s m v
        (record {
          ended = v.ended;
          caused = v.caused;
          within = v.within;
          opened = v.opened;
          fresh = v.fresh;
        })
        (λ room. record {
          ended = v.ended;
          caused = v.caused;
          within = omega (arith, length-append s.events (m ∷ []));
          opened = v.opened;
          fresh = v.fresh;
        })
        (deliver-Inv json)
