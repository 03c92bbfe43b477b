-- ===== src/Signaling/Session/Rpc/Finish.antt =====
-- The end of a session, `finish` of internal/signaling/session.go.
use go_ring.Common.{
  ℕ, ◌≡◌, ◌≢◌, refl, sym, subst, ◌∙◌, ◌⊎◌, inl, inr, true, false, none, some, [], ◌∷◌, Bytes, ◌==◌,
  ==_iff, if◌then◌else◌, arith, Bool-cases,
}
use go_ring.Common.Maps.{
  Map, lookup, insert, lookup-insert, AllEntries, AllEntries-lookup, AllEntries-map,
  nat_eq_instance,
}
use go_ring.Common.Decimal.{bytes_eq, bytes_eq_instance}
use go_ring.Signaling.Session.{SessionError, RpcReply, Session, deliver_all, finish}
use go_ring.Signaling.Session.Rpc.Invariant.{IsOpen, Inv}

abbrev pub failed : SessionError → RpcReply
failed e = record { result = []; error = some e }

abbrev offered : SessionError → ℕ → Map ℕ RpcReply → Map ℕ RpcReply
offered e ch replies = elim (lookup ch replies) [
  | some full ↦ replies
  | none ↦ insert ch (failed e) replies
]

-- A channel that holds something keeps it, and another channel is not touched.
offered_lem :
    (e : SessionError) (ch j : ℕ) (replies : Map ℕ RpcReply)
    → lookup j (offered e ch replies) ≡ (elim (lookup j replies) [
      | some full ↦ some full
      | none ↦ if ch == j then some (failed e) else none
    ])
offered_lem e ch j replies = ground (arith, lookup-insert ch j (failed e) replies, ==_iff ch j)

deliver_all-full :
    (e : SessionError) (pending : Map Bytes ℕ) (replies : Map ℕ RpcReply) (j : ℕ) (r : RpcReply)
    → lookup j replies ≡ some r
    → lookup j (deliver_all e pending replies) ≡ some r
unfolding deliver_all
deliver_all-full e [] replies j r h = h
deliver_all-full e ((id, ch) ∷ pending) replies j r h =
    deliver_all-full e pending (offered e ch replies) j r
      (ground (arith, offered_lem e ch j replies))

deliver_all-other :
    (e : SessionError) (pending : Map Bytes ℕ) (replies : Map ℕ RpcReply) (j : ℕ)
    → AllEntries (λ id ch. ch ≢ j) pending
    → lookup j (deliver_all e pending replies) ≡ lookup j replies
unfolding deliver_all
deliver_all-other e [] replies j a = refl
deliver_all-other e ((id, ch) ∷ pending) replies j a =
    deliver_all-other e pending (offered e ch replies) j a.1
    ∙ ground (arith, offered_lem e ch j replies, ==_iff ch j, a.0)

deliver_all-pending :
    (e : SessionError) (pending : Map Bytes ℕ) (replies : Map ℕ RpcReply) (id : Bytes) (ch : ℕ)
    → lookup id pending ≡ some ch
    → (lookup ch replies ≡ none) ⊎ (lookup ch replies ≡ some (failed e))
    → lookup ch (deliver_all e pending replies) ≡ some (failed e)
unfolding deliver_all lookup
deliver_all-pending e [] replies id ch h free = cc
deliver_all-pending e ((i, c) ∷ pending) replies id ch h free = elim (Bool-cases (c == ch)) [
  | inl same ↦
      deliver_all-full e pending (offered e c replies) ch (failed e)
        (ground (arith, offered_lem e c ch replies))
  | inr other ↦
      deliver_all-pending e pending (offered e c replies) id ch
        (ground (arith, bytes_eq i id, ==_iff c ch)) (ground (arith, offered_lem e c ch replies))
]

finished : Session → SessionError → Session
finished s e = record s {
  closed = true;
  terminal = some e;
  pending = [];
  replies = deliver_all e s.pending s.replies;
}

finish_live : (s : Session) (e : SessionError) → s.closed ≡ false → finish s e ≡ finished s e
unfolding finish finished
finish_live s e live = rw live refl

finish_over : (s : Session) (e : SessionError) → s.closed ≡ true → finish s e ≡ s
unfolding finish
finish_over s e over = rw over refl

pub finish-Inv : (s : Session) (e : SessionError) → Inv s → Inv (finish s e)
finish-Inv s e v = elim (Bool-cases s.closed) [
  | inl over ↦ subst Inv (sym (finish_over s e over)) v
  | inr live ↦ subst Inv (sym (finish_live s e live)) (
      unfold finished in
      record {
        ended = λ c. refl;
        caused = λ c. (e, refl);
        within = v.within;
        opened = tt;
        fresh = λ j h.
            deliver_all-other e s.pending s.replies j (
              AllEntries-map (IsOpen s.control_id s.sequence s.replies) (λ id ch. ch ≢ j) s.pending
                (λ id ch o same. absurd (omega arith)) v.opened)
            ∙ v.fresh j h;
      })
]

-- The first end of a session answers every pending call with its cause and forgets the calls; the
-- cause stays: whatever ends the session again changes nothing.
pub finish_lem :
    (s : Session) (e e' : SessionError)
    → Inv s
    → s.closed ≡ false
    → ((finish s e).closed ≡ true)
      × ((finish s e).terminal ≡ some e)
      × ((finish s e).pending ≡ [])
      × ((id : Bytes) (ch : ℕ)
          → lookup id s.pending ≡ some ch
          → lookup ch (finish s e).replies ≡ some (record { result = []; error = some e }))
      × (finish (finish s e) e' ≡ finish s e)
finish_lem s e e' v live =
    let same = finish_live s e live in
    subst
      (λ t.
        (t.closed ≡ true)
        × (t.terminal ≡ some e)
        × (t.pending ≡ [])
        × ((id : Bytes) (ch : ℕ)
            → lookup id s.pending ≡ some ch
            → lookup ch t.replies ≡ some (failed e))
        × (finish t e' ≡ t))
      (sym same)
      (unfold finished in
        (
          refl,
          refl,
          refl,
          λ id ch h. deliver_all-pending e s.pending s.replies id ch h (
              inl
                (AllEntries-lookup (IsOpen s.control_id s.sequence s.replies) id ch s.pending
                  v.opened h).0),
          finish_over _ e' refl,
        ))
