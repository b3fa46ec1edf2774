-- ===== src/Native/Ends.antt =====
-- conn_process.go: where the loops of processImpl and firstBlockImpl end.
use mathlib.Core.List.{append_assoc, append-nil}
use clickhouse_go.Common.{
  ℕ, List, [], ◌∷◌, ◌++◌, Option, none, some, ◌⊎◌, inl, inr, ◌≡◌, refl, sym, ap, ◌∙◌, arith,
}
use clickhouse_go.Native.{
  Frame, ConnError, Event, OnProcess, Processed, Round, after_round, read_loop, handle, handled,
  process_round, process_impl, block_frame, server_exception, server_end_of_stream,
  server_profile_info, server_table_columns, server_profile_events, server_log, server_progress,
  server_pong, other_packet,
}

module _ {ℓ} {Block E A : Type ℓ} (round : Frame Block E → Round Block A) (over : A) where
  -- The calls of frames that are read through.
  abbrev pub calls : List (Frame Block E) → List (Event Block)
  calls [] = []
  calls (f ∷ fs) = (round f).0 ++ calls fs

  -- None of the frames ends the loop.
  abbrev pub Passed : List (Frame Block E) → Type ℓ
  Passed [] = Unit
  Passed (f ∷ fs) = ((round f).1 ≡ none) × Passed fs

  -- Where a loop stops: behind the last frame, or at a frame that ends it.
  abbrev pub Stops : List (Frame Block E) → Processed Block E A → Type ℓ
  Stops frames p =
      (passed : List (Frame Block E)) × Passed passed
      × (((frames ≡ passed) × (p.rest ≡ []) × (p.answer ≡ over) × (p.events ≡ calls passed))
          ⊎ ((f : Frame Block E) × (frames ≡ passed ++ f ∷ p.rest)
              × ((round f).1 ≡ some p.answer)
              × (p.events ≡ calls passed ++ (round f).0)))

  after_pass :
      (f : Frame Block E) (frames : List (Frame Block E)) (p : Processed Block E A)
      → (round f).1 ≡ none
      → Stops frames p
      → Stops (f ∷ frames) (record p { events = (round f).0 ++ p.events })
  after_pass f frames p quiet (passed, all, inl (e, r, a, c)) =
      (f ∷ passed, (quiet, all), inl (ap (◌∷◌ f) e, r, a, ap (◌++◌ (round f).0) c))
  after_pass f frames p quiet (passed, all, inr (g, e, a, c)) = (
    f ∷ passed,
    (quiet, all),
    inr (
      g,
      ap (◌∷◌ f) e,
      a,
      ap (◌++◌ (round f).0) c ∙ sym (append_assoc (round f).0 (calls passed) (round g).0),
    ),
  )

  after_frame :
      (f : Frame Block E) (frames : List (Frame Block E)) (p : Processed Block E A)
      (r : Round Block A)
      → round f ≡ r
      → Stops frames p
      → Stops (f ∷ frames) (after_round r frames p)
  after_frame f frames p (events, none) e stops =
      rw (ap (λ r. r.0) e) at (after_pass f frames p (ap (λ r. r.1) e) stops)
  after_frame f frames p (events, some a) e stops =
      ([], tt, inr (f, refl, ap (λ r. r.1) e, sym (ap (λ r. r.0) e)))

  pub read_loop-Stops : (frames : List (Frame Block E)) → Stops frames (read_loop round over frames)
  unfolding read_loop
  read_loop-Stops [] = ([], tt, inl (refl, refl, refl, refl))
  read_loop-Stops (f ∷ frames) =
      after_frame f frames (read_loop round over frames) (round f) refl (read_loop-Stops frames)

module _ {ℓ} {Block E : Type ℓ} (rows : Block → ℕ) (on : OnProcess) where
  -- A round ends the loop without an error at the end of the stream only.
  process_round-cases :
      (f : Frame Block E)
      → ((f ≡ server_end_of_stream) × (process_round rows on f ≡ ([], some none)))
        ⊎ (process_round rows on f ≡ handled some (handle rows on f))
  unfolding process_round
  process_round-cases (block_frame packet r) = inr refl
  process_round-cases (server_exception e) = inr refl
  process_round-cases server_end_of_stream = inl (refl, refl)
  process_round-cases (server_profile_info r) = inr refl
  process_round-cases (server_table_columns r) = inr refl
  process_round-cases (server_profile_events r) = inr refl
  process_round-cases (server_log r) = inr refl
  process_round-cases (server_progress r) = inr refl
  process_round-cases server_pong = inr refl
  process_round-cases (other_packet n) = inr refl

  -- A frame that ends the loop is the end of the stream, or its handling failed.
  ending :
      (f : Frame Block E) (a : Option (ConnError E))
      → (process_round rows on f).1 ≡ some a
      → ((f ≡ server_end_of_stream) × (a ≡ none) × ((process_round rows on f).0 ≡ []))
        ⊎ ((e : ConnError E) × ((handle rows on f).1 ≡ some e) × (a ≡ some e))
  ending f a h = elim (process_round-cases f) [
    | inl (s, e) ↦ inl (s, cc, ap (λ r. r.0) e)
    | inr e ↦ inr (failing (handle rows on f) (sym (ap (λ r. r.1) e) ∙ h))
  ]
    where
      failing :
          (r : Round Block (ConnError E))
          → (handled some r).1 ≡ some a
          → (e : ConnError E) × (r.1 ≡ some e) × (a ≡ some e)
      failing (events, none) k = absurd (ground (arith, k))
      failing (events, some e) k = (e, refl, cc)

  -- processImpl goes through frames that are handled without an error, and then ends: without an
  -- error exactly at the end of the stream, with the error of the frame that could not be handled,
  -- or, where the frames are over, with the error of the read. It leaves the frames behind that one,
  -- and has called the functions of onProcess for the frames before it, in order, and for the frame
  -- that failed as far as its handling went.
  pub process_impl-ends :
      (over : ConnError E) (frames : List (Frame Block E))
      → let p = process_impl rows on over frames in
        let round = process_round rows on in
        (passed : List (Frame Block E)) × Passed round (some over) passed
        × (((frames ≡ passed ++ server_end_of_stream ∷ p.rest)
              × (p.answer ≡ none)
              × (p.events ≡ calls round (some over) passed))
            ⊎ ((f : Frame Block E) × (e : ConnError E) × (frames ≡ passed ++ f ∷ p.rest)
                × ((handle rows on f).1 ≡ some e)
                × (p.answer ≡ some e)
                × (p.events ≡ calls round (some over) passed ++ (round f).0))
            ⊎ ((frames ≡ passed)
                × (p.rest ≡ [])
                × (p.answer ≡ some over)
                × (p.events ≡ calls round (some over) passed)))
  unfolding process_impl
  process_impl-ends over frames =
      let (passed, all, stop) = read_loop-Stops (process_round rows on) (some over) frames in
      (
        passed,
        all,
        elim stop [
          | inl s ↦ inr (inr s)
          | inr (f, e, a, c) ↦ elim (ending f _ a) [
            | inl (s, n, quiet) ↦ inl (rw s at e, n, c ∙ rw (quiet, append-nil))
            | inr (err, bad, x) ↦ inr (inl (f, err, e, bad, x, c))
          ]
        ],
      )
