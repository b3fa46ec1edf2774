-- ===== src/Block/Send/Framed.antt =====
-- The chunks that compressBuffer of conn.go makes of the buffer.
use mathlib.Core.Path.{subst}
use mathlib.Core.List.{append_assoc, append-nil}
use clickhouse_go.Common.{
  Bool, true, false, ◌&&◌, List, [], ◌∷◌, ◌++◌, none, some, ◌⊎◌, inl, inr, ltb, if◌then◌else◌,
  if-both, length, ◌≡◌, refl, sym, ap, ◌∙◌, arith, Bool-cases,
}
use clickhouse_go.Block.{Bytes, Wire, ColumnOps, Block}
use clickhouse_go.Block.Send.{
  take, drop, Sending, Link, Step, and_then, compress_buffer, compressed,
}

pub take-all : (xs : Bytes) → take (length xs) xs ≡ xs
take-all [] = refl
take-all (x ∷ xs) = ap (◌∷◌ x) (take-all xs)

take-append : (xs ys : Bytes) → take (length xs) (xs ++ ys) ≡ xs
take-append [] ys = refl
take-append (x ∷ xs) ys = ap (◌∷◌ x) (take-append xs ys)

drop-append : (xs ys : Bytes) → drop (length xs) (xs ++ ys) ≡ ys
drop-append [] ys = refl
drop-append (x ∷ xs) ys = drop-append xs ys

-- Chunks: the bytes of each, and what the socket takes for them.
abbrev pub Chunks : Type 0
Chunks = List (Bytes × Bytes)

abbrev pub plain_of : Chunks → Bytes
plain_of [] = []
plain_of ((p, f) ∷ cs) = p ++ plain_of cs

abbrev pub framed_of : Chunks → Bytes
framed_of [] = []
framed_of ((p, f) ∷ cs) = f ++ framed_of cs

plain_of_last : (cs : Chunks) (p f : Bytes) → plain_of (cs ++ (p, f) ∷ []) ≡ plain_of cs ++ p
plain_of_last [] p f = append-nil p
plain_of_last ((q, g) ∷ cs) p f =
    ap (λ l. q ++ l) (plain_of_last cs p f) ∙ sym (append_assoc q (plain_of cs) p)

framed_of_last : (cs : Chunks) (p f : Bytes) → framed_of (cs ++ (p, f) ∷ []) ≡ framed_of cs ++ f
framed_of_last [] p f = append-nil f
framed_of_last ((q, g) ∷ cs) p f =
    ap (λ l. g ++ l) (framed_of_last cs p f) ∙ sym (append_assoc g (framed_of cs) f)

pub length-zero : (xs : Bytes) → length xs ≡ 0 → xs ≡ []
length-zero [] h = refl
length-zero (x ∷ xs) h = absurd (omega (arith, h))

append-eq_nil : (xs ys : Bytes) → xs ++ ys ≡ [] → (xs ≡ []) × (ys ≡ [])
append-eq_nil [] ys h = (refl, h)
append-eq_nil (x ∷ xs) ys h = absurd (ground (arith, h))

and_left : (a b : Bool) → (a && b) ≡ true → a ≡ true
and_left true b h = refl
and_left false b h = h

empty_buffer : (xs : Bytes) → (true && ltb 0 (length xs)) ≡ false → xs ≡ []
empty_buffer [] h = refl
empty_buffer (x ∷ xs) h = absurd (ground (arith, h))

pub and_then-none :
    {Col E : Type 0} (r : Step Col E) (f : Sending Col → Step Col E)
    → (and_then r f).1 ≡ none
    → (r.1 ≡ none) × (and_then r f ≡ f r.0)
and_then-none (s, none) f h = (refl, refl)
and_then-none (s, some e) f h = absurd (ground (arith, h))

module _ {Col V E : Type 0} (w : Wire E) (ops : ColumnOps Col V E) (link : Link E) where
  -- A chunk is sent as it is, or as the compressor gives it.
  abbrev pub Frames : Bytes → Bytes → Type 0
  Frames p f = if link.compression then link.compress p ≡ inl f else (f ≡ p)

  abbrev pub AllFramed : Chunks → Type 0
  AllFramed [] = Unit {0}
  AllFramed ((p, f) ∷ cs) = Frames p f × AllFramed cs

  AllFramed-append :
      (cs : Chunks) (p f : Bytes) → AllFramed cs → Frames p f → AllFramed (cs ++ (p, f) ∷ [])
  AllFramed-append [] p f h k = (k, tt)
  AllFramed-append ((q, g) ∷ cs) p f (h, hs) k = (h, AllFramed-append cs p f hs k)

  -- Behind `base`, the bytes `all` are partly taken in chunks, partly framed at the front of the
  -- buffer, and else pending behind the offset.
  pub record Holds (base all : Bytes) (s : Sending Col) : Type 0 where
    pub front : Bytes
    pub pending : Bytes
    pub chunks : Chunks
    pub buffer_lem : s.buffer ≡ front ++ pending
    pub offset_lem : s.offset ≡ length front
    pub sent_lem : s.sent ++ front ≡ base ++ framed_of chunks
    pub all_lem : plain_of chunks ++ pending ≡ all
    pub framed_lem : AllFramed chunks

  pub Holds-put :
      (base all bytes : Bytes) (s : Sending Col) (b : Block Col)
      → Holds base all s
      → Holds base (all ++ bytes) (record s { buffer = s.buffer ++ bytes; block = b })
  Holds-put base all bytes s b h = record {
    front = h.front;
    pending = h.pending ++ bytes;
    chunks = h.chunks;
    buffer_lem = ap (λ l. l ++ bytes) h.buffer_lem ∙ append_assoc h.front h.pending bytes;
    offset_lem = h.offset_lem;
    sent_lem = h.sent_lem;
    all_lem =
        sym (append_assoc (plain_of h.chunks) h.pending bytes) ∙ ap (λ l. l ++ bytes) h.all_lem;
    framed_lem = h.framed_lem;
  }

  -- Everything is framed: `buffer` is what the socket has yet to take behind `sent`.
  pub record Ready (base all sent buffer : Bytes) : Type 0 where
    pub chunks : Chunks
    pub sent_lem : sent ++ buffer ≡ base ++ framed_of chunks
    pub all_lem : plain_of chunks ≡ all
    pub framed_lem : AllFramed chunks

  framed-Ready :
      (base all f : Bytes) (s : Sending Col) (h : Holds base all s)
      → Frames h.pending f
      → Ready base all s.sent (h.front ++ f)
  framed-Ready base all f s h k = record {
    chunks = h.chunks ++ (h.pending, f) ∷ [];
    sent_lem =
        sym (append_assoc s.sent h.front f)
        ∙ ap (λ l. l ++ f) h.sent_lem
        ∙ append_assoc base (framed_of h.chunks) f
        ∙ ap (λ l. base ++ l) (sym (framed_of_last h.chunks h.pending f));
    all_lem = plain_of_last h.chunks h.pending f ∙ h.all_lem;
    framed_lem = AllFramed-append h.chunks h.pending f h.framed_lem k;
  }

  -- A step that succeeds makes everything ready and keeps the block.
  abbrev pub MakesReady : Bytes → Bytes → Sending Col → Step Col E → Type 0
  MakesReady base all s r = r.1 ≡ none → Ready base all r.0.sent r.0.buffer × (r.0.block ≡ s.block)

  compressed-Ready :
      (base all : Bytes) (s : Sending Col)
      → Holds base all s
      → link.compression ≡ true
      → (r : Bytes ⊎ E) → link.compress (drop s.offset s.buffer) ≡ r
      → MakesReady base all s (compressed w ops link s s.offset r)
  compressed-Ready base all s h on (inr e) k ok = absurd (ground (arith, ok))
  compressed-Ready base all s h on (inl f) k ok =
      let before : take s.offset s.buffer ≡ h.front =
        ap (λ n. take n s.buffer) h.offset_lem
        ∙ ap (take (length h.front)) h.buffer_lem
        ∙ take-append h.front h.pending in
      let behind : drop s.offset s.buffer ≡ h.pending =
        ap (λ n. drop n s.buffer) h.offset_lem
        ∙ ap (drop (length h.front)) h.buffer_lem
        ∙ drop-append h.front h.pending in
      let framed : Frames h.pending f = rw on (ap link.compress (sym behind) ∙ k) in
      (
        subst (λ l. Ready base all s.sent (l ++ f)) (sym before)
            (framed-Ready base all f s h framed),
        refl,
      )

  plain-Ready :
      (base all : Bytes) (s : Sending Col)
      → Holds base all s
      → link.compression ≡ false
      → Ready base all s.sent s.buffer
  plain-Ready base all s h off =
      let framed : Frames h.pending h.pending = rw off refl in
      subst (Ready base all s.sent) (sym h.buffer_lem) (framed-Ready base all h.pending s h framed)

  empty-Ready :
      (base all : Bytes) (s : Sending Col)
      → Holds base all s
      → s.buffer ≡ []
      → Ready base all s.sent s.buffer
  empty-Ready base all s h e =
      let (no_front, no_pending) = append-eq_nil h.front h.pending (sym h.buffer_lem ∙ e) in
      record {
        chunks = h.chunks;
        sent_lem = ap (λ l. s.sent ++ l) (e ∙ sym no_front) ∙ h.sent_lem;
        all_lem =
            sym (append-nil (plain_of h.chunks))
            ∙ ap (λ l. plain_of h.chunks ++ l) (sym no_pending)
            ∙ h.all_lem;
        framed_lem = h.framed_lem;
      }

  pub compress_buffer-Ready :
      (base all : Bytes) (s : Sending Col)
      → Holds base all s
      → MakesReady base all s (compress_buffer w ops link s.offset s)
  unfolding compress_buffer
  compress_buffer-Ready base all s h =
      if-both (MakesReady base all s) (link.compression && ltb 0 (length s.buffer)) _ _
        (λ on.
          compressed-Ready base all s h (and_left link.compression _ on)
            (link.compress (drop s.offset s.buffer)) refl)
        λ off ok. (
          elim (Bool-cases link.compression) [
            | inl on ↦ empty-Ready base all s h (empty_buffer s.buffer (rw on at off))
            | inr plain ↦ plain-Ready base all s h plain
          ],
          refl,
        )
