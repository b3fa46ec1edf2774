-- ===== src/Batch/Held.antt =====
-- conn_batch.go: what a batch owes the pool. Each connection that the batch was given it gives back
-- once, or holds it while `released` is not set.
use mathlib.Core.List.{append-nil, map, append_assoc, map-append}
use clickhouse_go.Common.{
  ℕ, Bool, true, false, ◌||◌, List, [], ◌∷◌, ◌++◌, Option, none, some, ◌≡◌, refl, ◌∙◌, arith,
  if◌then◌else◌, Bool-cases, Option-cases, sum-cases, ◌==◌, inl, inr,
}
use clickhouse_go.Batch.{
  Batch, BatchError, BlockOps, Wire, Outcome, release, finish, restart, reset_connection, failed,
  and_then, unless_failed, send_data, send_query, send_start, send_rest, send_body, send,
  flush_start,
}

module _ {ℓ} {Block E : Type ℓ} where
  -- The connection that the batch still has to give back.
  abbrev pub held : Batch Block E → List (Option ℕ)
  held b = if b.released then [] else b.conn ∷ []

  -- The connections of the calls of connRelease.
  abbrev pub given_back : Batch Block E → List (Option ℕ)
  given_back b = map (λ r. r.0) b.returned

  pub record Inv (b : Batch Block E) : Type 0 where
    pub owed : b.acquired ≡ given_back b ++ held b
    pub sent_released : b.sent ≡ true → b.released ≡ true

  abbrev pub Owes : Batch Block E → Type 0
  Owes b = b.acquired ≡ given_back b ++ held b

  pub Owes-release : (e : Option (BatchError E)) (b : Batch Block E) → Owes b → Owes (release e b)
  unfolding release
  Owes-release e b v = elim (Bool-cases b.released) [
    | inl done ↦ simp done (simp done at v)
    | inr not_done ↦ simp (not_done, map-append, append-nil) (simp not_done at v)
  ]

  pub released-release :
      (e : Option (BatchError E)) (b : Batch Block E) → (release e b).released ≡ true
  unfolding release
  released-release e b = elim (Bool-cases b.released) [
    | inl done ↦ simp done
    | inr not_done ↦ simp not_done
  ]

  pub sent-release :
      (e : Option (BatchError E)) (b : Batch Block E) → b.sent ≡ true → (release e b).sent ≡ true
  unfolding release
  sent-release e b h = elim (Bool-cases b.released) [
    | inl done ↦ simp (done, h)
    | inr not_done ↦ simp (not_done, h)
  ]

  pub settled : (b : Batch Block E) → b.released ≡ true → Owes b → b.acquired ≡ given_back b
  settled b h v = v ∙ simp (h, append-nil)

  -- After the end of Send, Abort or Close nothing is owed.
  pub Inv-finish :
      (e : Option (BatchError E)) (b : Batch Block E)
      → Owes b
      → let b' = finish e b in Inv b' × (b'.sent ≡ true) × (b'.acquired ≡ given_back b')
  unfolding finish
  Inv-finish e b v =
      let b1 : Batch Block E = record b { sent = true } in
      let owed = Owes-release e b1 v in
      let marked = released-release e b1 in
      (
        record { owed = owed; sent_released = λ h. marked },
        sent-release e b1 refl,
        settled (release e b1) marked owed,
      )

  release-marked :
      (e : Option (BatchError E)) (b : Batch Block E) → b.released ≡ true → release e b ≡ b
  unfolding release
  release-marked e b h = simp h

  restarted :
      (b : Batch Block E) (c : ℕ)
      → b.released ≡ true
      → Owes b
      → Owes (record b { conn = some c; acquired = b.acquired ++ some c ∷ []; released = false })
  restarted b c h v = rw (v, append_assoc (given_back b)) (simp h)

  restart-Owes :
      (w : Wire E) (b : Batch Block E) (c : ℕ)
      → b.released ≡ true
      → Owes b
      → Owes (restart w (record b { conn = some c; acquired = b.acquired ++ some c ∷ [] })).0
  unfolding restart
  restart-Owes w b c h v =
      let b1 : Batch Block E = record b { conn = some c; acquired = b.acquired ++ some c ∷ [] } in
      elim (Option-cases w.send_query) [
        | inr (e, s) ↦ rw (s, release-marked (some (failed e)) b1 h) (restarted b c h v)
        | inl s ↦ elim (Option-cases w.first_block) [
          | inr (e, f) ↦ rw (s, f, release-marked (some (failed e)) b1 h) (restarted b c h v)
          | inl f ↦ rw (s, f) (restarted b c h v)
        ]
      ]

  -- A new connection is owed; if none is given, nothing is.
  reset_connection-Owes :
      (w : Wire E) (b : Batch Block E) → b.released ≡ true → Owes b → Owes (reset_connection w b).0
  unfolding reset_connection
  reset_connection-Owes w b h v = elim (sum-cases w.acquire) [
    | inl (c, a) ↦ rw a (restart-Owes w b c h v)
    | inr (e, a) ↦ rw a (simp h (simp h at v))
  ]

-- What holds of the batch behind every branch of a method.
module _ {ℓ} {Block E : Type ℓ} (P : Batch Block E → Type 0) where
  pub unless_failed-all :
      (e : Option (BatchError E)) (b : Batch Block E) (r : Outcome Block E)
      → P b
      → P r.0
      → P (unless_failed e b r).0
  unless_failed-all none b r p q = q
  unless_failed-all (some e) b r p q = p

  pub and_then-all :
      (r : Outcome Block E) (f : Batch Block E → Outcome Block E)
      → P r.0
      → ((b : Batch Block E) → P b → P (f b).0)
      → P (and_then r f).0
  and_then-all (b, none) f p q = q b p
  and_then-all (b, some e) f p q = p

  pub if-all :
      (t : Bool) (r r' : Outcome Block E)
      → (t ≡ true → P r.0)
      → (t ≡ false → P r'.0)
      → P (if t then r else r').0
  if-all true r r' p q = p refl
  if-all false r r' p q = q refl

module _ {ℓ} {Block E : Type ℓ} where
  send_start-Owes : (w : Wire E) (b : Batch Block E) → Inv b → Owes (send_start w b).0
  unfolding send_start
  send_start-Owes w b v =
      if-all Owes (b.sent || b.released) (reset_connection w b) (b, none)
        (λ h. reset_connection-Owes w b (ground (arith, v.sent_released, h)) v.owed) (λ h. v.owed)

  pub flush_start-Owes : (w : Wire E) (b : Batch Block E) → Owes b → Owes (flush_start w b).0
  unfolding flush_start
  flush_start-Owes w b v =
      if-all Owes b.released (reset_connection w b) (b, none) (λ h. reset_connection-Owes w b h v)
        (λ h. v)

module _ {ℓ} {Block V E : Type ℓ} (ops : BlockOps Block V E) where
  pub send_data-Owes : (w : Wire E) (b : Batch Block E) → Owes b → Owes (send_data w b).0
  unfolding send_data
  send_data-Owes w b v = elim (Option-cases w.send_data) [ inl e ↦ rw e v | inr (_, e) ↦ rw e v ]

  send_query-Owes :
      (w : Wire E) (r : Batch Block E × Option E) → Owes r.0 → Owes (send_query ops w r).0
  unfolding send_query
  send_query-Owes w (b, none) v = v
  send_query-Owes w (b, some e) v = v

  send_rest-Owes : (w : Wire E) (b : Batch Block E) → Owes b → Owes (send_rest ops w b).0
  unfolding send_rest
  send_rest-Owes w b v = elim (Bool-cases (ops.rows b.block == 0)) [
    | inl e ↦ rw e (send_query-Owes w (b, none) v)
    | inr e ↦ rw e (send_query-Owes w (send_data w b) (send_data-Owes w b v))
  ]

  send_body-Owes : (w : Wire E) (b : Batch Block E) → Inv b → Owes (send_body ops w b).0
  unfolding send_body
  send_body-Owes w b v =
      unless_failed-all Owes b.err b (and_then (send_start w b) (send_rest ops w)) v.owed (
        and_then-all Owes (send_start w b) (send_rest ops w) (send_start-Owes w b v)
          (send_rest-Owes w))

  -- Send gives back every connection that the batch was ever given, whatever the wire answers.
  pub send-Inv :
      (w : Wire E) (b : Batch Block E)
      → Inv b
      → let b' = (send ops w b).0 in Inv b' × (b'.sent ≡ true) × (b'.acquired ≡ given_back b')
  unfolding send
  send-Inv w b v = Inv-finish (send_body ops w b).1 (send_body ops w b).0 (send_body-Owes w b v)
