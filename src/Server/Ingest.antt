-- ===== src/Server/Ingest.antt =====
-- Duplicates in cmd/server-demo/store.go.
use nx_iio_t_gateway_max_gat.Shared.{
  ℕ, ◌+◌, ◌-◌, ◌≤◌, ◌≡◌, ◌≢◌, refl, ◌∙◌, inl, inr, true, List, [], ◌∷◌, Option, none, some, arith,
  ltb, length, length-drop, All, Bool-cases, Option-cases, lt64, add64, wrap64,
}
use nx_iio_t_gateway_max_gat.Queue.Codec.Names.{same_bytes}
use nx_iio_t_gateway_max_gat.Forwarder.Wire.{WireReading, WireChunk, Message}
use nx_iio_t_gateway_max_gat.Server.{
  Text, StreamKey, ChunkKey, same_stream, same_chunk, is_seen, last_of, or_zero, Writer, Store,
  change_stats, note_rejected, fresh_of, found_gap, look_for_gap, advance, keep_readings,
  keep_chunk, keep_all, trim, keep_fresh, write_fresh, ingest,
}

same_bytes_refl : (t : Text) → same_bytes t t ≡ true
unfolding same_bytes
same_bytes_refl [] = refl
same_bytes_refl (a ∷ t) = ground (arith, same_bytes_refl t)

same_chunk_refl : (k : ChunkKey) → same_chunk k k ≡ true
unfolding same_chunk same_stream
same_chunk_refl k =
    rw (same_bytes_refl k.stream.gateway_id, same_bytes_refl k.stream.stream_id) (ground arith)

is_seen-cons :
    (x k : ChunkKey) (seen : List ChunkKey) → is_seen x seen ≡ true → is_seen x (k ∷ seen) ≡ true
unfolding is_seen
is_seen-cons x k seen h = ground arith

is_seen_now : (k : ChunkKey) (seen : List ChunkKey) → is_seen k (k ∷ seen) ≡ true
unfolding is_seen
is_seen_now k seen = rw (same_chunk_refl k) refl

module _ (wr : Writer) where
  abbrev pub IsSeen : StreamKey → List ChunkKey → WireChunk → Type 0
  IsSeen k seen c = is_seen (record { stream = k; seq = c.seq }) seen ≡ true

  look_for_gap-seen :
      (now : ℕ) (k : StreamKey) (seq : ℕ) (last : Option ℕ) (s : Store wr)
      → (look_for_gap wr now k seq last s).seen ≡ s.seen
  unfolding look_for_gap found_gap change_stats
  look_for_gap-seen now k seq none s = refl
  look_for_gap-seen now k seq (some last) s = elim (Bool-cases (lt64 (add64 last 1) seq)) [
    | inl gap ↦ rw (gap, look_for_gap) refl
    | inr next ↦ rw (next, look_for_gap) refl
  ]

  advance-seen : (k : StreamKey) (seq : ℕ) (s : Store wr) → (advance wr k seq s).seen ≡ s.seen
  unfolding advance change_stats
  advance-seen k seq s = elim (Bool-cases (lt64 (or_zero (last_of k s.last_seq)) seq)) [
    | inl new ↦ rw (new, advance) refl
    | inr old ↦ rw (old, advance) refl
  ]

  keep_readings-seen :
      (k : ChunkKey) (rs : List WireReading) (s : Store wr)
      → (keep_readings wr k rs s).seen ≡ s.seen
  unfolding keep_readings
  keep_readings-seen k [] s = refl
  keep_readings-seen k (r ∷ rs) s = keep_readings-seen k rs _

  keep_chunk-seen :
      (now : ℕ) (k : StreamKey) (c : WireChunk) (s : Store wr)
      → (keep_chunk wr now k c s).seen ≡ record { stream = k; seq = c.seq } ∷ s.seen
  unfolding keep_chunk
  keep_chunk-seen now k c s =
      keep_readings-seen _ c.readings _
      ∙ (advance-seen k c.seq _ ∙ look_for_gap-seen now k c.seq (last_of k s.last_seq) _)

  keep_all_keeps :
      (now : ℕ) (k : StreamKey) (cs : List WireChunk) (accepted : ℕ) (s : Store wr) (x : ChunkKey)
      → is_seen x s.seen ≡ true
      → is_seen x (keep_all wr now k cs accepted s).0.seen ≡ true
  unfolding keep_all
  keep_all_keeps now k [] accepted s x h = h
  keep_all_keeps now k (c ∷ cs) accepted s x h =
      keep_all_keeps now k cs (accepted + length c.readings) (keep_chunk wr now k c s) x
        (rw (keep_chunk-seen now k c s) (is_seen-cons x _ s.seen h))

  keep_all-seen :
      (now : ℕ) (k : StreamKey) (cs : List WireChunk) (accepted : ℕ) (s : Store wr)
      → All (IsSeen k (keep_all wr now k cs accepted s).0.seen) cs
  unfolding keep_all
  keep_all-seen now k [] accepted s = tt
  keep_all-seen now k (c ∷ cs) accepted s = (
    keep_all_keeps now k cs (accepted + length c.readings) (keep_chunk wr now k c s) _
        (rw (keep_chunk-seen now k c s) (is_seen_now _ s.seen)),
    keep_all-seen now k cs (accepted + length c.readings) (keep_chunk wr now k c s),
  )

  -- What a message leaves behind that was stored: its chunks are known, and the list is in bounds.
  pub record IsSettled (k : StreamKey) (before : List ChunkKey) (cs : List WireChunk) (s : Store wr)
      : Type 0 where
    pub known : All (IsSeen k s.seen) cs
    pub older : (x : ChunkKey) → is_seen x before ≡ true → is_seen x s.seen ≡ true
    pub bounded : length s.received ≤ 10000

  trim_lem : (s : Store wr) → ((trim wr s).seen ≡ s.seen) × (length (trim wr s).received ≤ 10000)
  unfolding trim
  trim_lem s = elim (Bool-cases (ltb 10000 (length s.received))) [
    | inl long ↦
        rw (long, trim) (refl, omega (arith, length-drop (length s.received - 10000) s.received))
    | inr short ↦ rw (short, trim) (refl, ground arith)
  ]

  keep_fresh-IsSettled :
      (now : ℕ) (k : StreamKey) (fresh : List WireChunk) (dups : ℕ) (s : Store wr)
      → IsSettled k s.seen fresh (keep_fresh wr now k fresh dups s).store
  unfolding keep_fresh change_stats
  keep_fresh-IsSettled now k fresh dups s = record {
    known = rw ((trim_lem _).0) (keep_all-seen now k fresh 0 s);
    older = λ x h. rw ((trim_lem _).0) (keep_all_keeps now k fresh 0 s x h);
    bounded =
        (trim_lem (
          change_stats wr k.gateway_id
            (λ g. record g {
              readings = add64 g.readings (wrap64 (keep_all wr now k fresh 0 s).1);
              last_error = [];
            })
            (keep_all wr now k fresh 0 s).0)).1;
  }

  write_fresh-IsSettled :
      (now : ℕ) (k : StreamKey) (fresh : List WireChunk) (dups : ℕ) (out : Option wr.W)
      (s : Store wr)
      → (write_fresh wr now k fresh dups out s).error ≡ none
      → IsSettled k s.seen fresh (write_fresh wr now k fresh dups out s).store
  unfolding write_fresh
  write_fresh-IsSettled now k fresh dups none s h = keep_fresh-IsSettled now k fresh dups s
  write_fresh-IsSettled now k [] dups (some w) s h = keep_fresh-IsSettled now k [] dups s
  write_fresh-IsSettled now k (c ∷ cs) dups (some w) s h =
      elim (Option-cases (wr.write_chunks k (c ∷ cs) w).1) [
        | inl good ↦ rw (good, write_fresh) (keep_fresh-IsSettled now k (c ∷ cs) dups _)
        | inr (e, bad) ↦ cc (rw (bad, write_fresh) at h)
      ]

  known_after :
      (k : StreamKey) (before after : List ChunkKey) (cs : List WireChunk)
      → ((x : ChunkKey) → is_seen x before ≡ true → is_seen x after ≡ true)
      → All (IsSeen k after) (fresh_of wr k before cs)
      → All (IsSeen k after) cs
  unfolding fresh_of
  known_after k before after [] older h = tt
  known_after k before after (c ∷ cs) older h =
      elim (Bool-cases (is_seen (record { stream = k; seq = c.seq }) before)) [
        | inl old ↦ (older _ old, known_after k before after cs older (rw (old, fresh_of) at h))
        | inr new ↦
            let both = rw (new, fresh_of) at h in
            (both.0, known_after k before after cs older both.1)
      ]

  none_fresh :
      (k : StreamKey) (seen : List ChunkKey) (cs : List WireChunk)
      → All (IsSeen k seen) cs
      → fresh_of wr k seen cs ≡ []
  unfolding fresh_of
  none_fresh k seen [] h = refl
  none_fresh k seen (c ∷ cs) h = rw (h.0, fresh_of) (none_fresh k seen cs h.1)

  -- What a message changes that brings nothing new: none of what is stored.
  pub record IsUnchanged (s s' : Store wr) : Type 0 where
    pub same_received : s'.received ≡ s.received
    pub same_seen : s'.seen ≡ s.seen
    pub same_last_seq : s'.last_seq ≡ s.last_seq
    pub same_gaps : s'.gaps ≡ s.gaps
    pub same_datapoints : s'.datapoints ≡ s.datapoints

  trimmed-IsUnchanged :
      (s x : Store wr) → IsUnchanged s x → length x.received ≤ 10000 → IsUnchanged s (trim wr x)
  unfolding trim
  trimmed-IsUnchanged s x v h = elim (Bool-cases (ltb 10000 (length x.received))) [
    | inl long ↦ absurd (ground arith)
    | inr short ↦ rw (short, trim) v
  ]

  keep_fresh_nothing :
      (now : ℕ) (k : StreamKey) (dups : ℕ) (s : Store wr)
      → length s.received ≤ 10000
      → IsUnchanged s (keep_fresh wr now k [] dups s).store
  unfolding keep_fresh keep_all change_stats
  keep_fresh_nothing now k dups s h =
      trimmed-IsUnchanged s _
        (record {
          same_received = refl;
          same_seen = refl;
          same_last_seq = refl;
          same_gaps = refl;
          same_datapoints = refl;
        })
        h

  keep_nothing :
      (now : ℕ) (k : StreamKey) (dups : ℕ) (out : Option wr.W) (s : Store wr)
      → length s.received ≤ 10000
      → let r = write_fresh wr now k [] dups out s in
        (r.accepted ≡ 0) × (r.duplicates ≡ dups) × (r.error ≡ none) × IsUnchanged s r.store
  unfolding write_fresh keep_fresh keep_all
  keep_nothing now k dups none s h = (refl, refl, refl, keep_fresh_nothing now k dups s h)
  keep_nothing now k dups (some w) s h = (refl, refl, refl, keep_fresh_nothing now k dups s h)

  pub ingest-IsSettled :
      (now : ℕ) (m : Message) (s : Store wr)
      → (ingest wr now m s).error ≡ none
      → IsSettled
          (record { gateway_id = m.gateway_id; stream_id = m.stream_id })
          s.seen
          m.chunks
          (ingest wr now m s).store
  unfolding ingest change_stats
  ingest-IsSettled now m s h =
      let k : StreamKey = record { gateway_id = m.gateway_id; stream_id = m.stream_id } in
      let settled = write_fresh-IsSettled now k (fresh_of wr k s.seen m.chunks) _ s.out _ h in
      record {
        known = known_after k s.seen _ m.chunks settled.older settled.known;
        older = settled.older;
        bounded = settled.bounded;
      }

  pub ingest_known :
      (now : ℕ) (m : Message) (s : Store wr)
      → All (IsSeen (record { gateway_id = m.gateway_id; stream_id = m.stream_id }) s.seen) m.chunks
      → length s.received ≤ 10000
      → let again = ingest wr now m s in
        (again.accepted ≡ 0)
        × (again.duplicates ≡ length m.chunks)
        × (again.error ≡ none)
        × IsUnchanged s again.store
  unfolding ingest change_stats
  ingest_known now m s known bounded =
      let k : StreamKey = record { gateway_id = m.gateway_id; stream_id = m.stream_id } in
      let (accepted, dups, error, same) =
        keep_nothing now k (length m.chunks - 0) s.out
          (change_stats wr k.gateway_id
            (λ g. record g {
              duplicate_chunks = add64 g.duplicate_chunks (wrap64 (length m.chunks - 0));
            })
            s)
          bounded in
      rw (none_fresh k s.seen m.chunks known) (
        accepted,
        dups ∙ omega arith,
        error,
        record {
          same_received = same.same_received;
          same_seen = same.same_seen;
          same_last_seq = same.same_last_seq;
          same_gaps = same.same_gaps;
          same_datapoints = same.same_datapoints;
        },
      )

  -- A message that arrives a second time, after it was stored, is accepted and adds nothing: all of
  -- its chunks count as duplicates, and the readings, seqs, gaps and datapoints stay as they were.
  pub ingest-again :
      (now later : ℕ) (m : Message) (s : Store wr)
      → (ingest wr now m s).error ≡ none
      → let first = (ingest wr now m s).store in
        let again = ingest wr later m first in
        (again.accepted ≡ 0)
        × (again.duplicates ≡ length m.chunks)
        × (again.error ≡ none)
        × IsUnchanged first again.store
  ingest-again now later m s h =
      let k : StreamKey = record { gateway_id = m.gateway_id; stream_id = m.stream_id } in
      let settled = ingest-IsSettled now m s h in
      ingest_known later m (ingest wr now m s).store settled.known settled.bounded

  write_fresh_failed :
      (now : ℕ) (k : StreamKey) (fresh : List WireChunk) (dups : ℕ) (out : Option wr.W)
      (s : Store wr) (e : Text)
      → (write_fresh wr now k fresh dups out s).error ≡ some e
      → ((write_fresh wr now k fresh dups out s).accepted ≡ 0)
        × IsUnchanged s (write_fresh wr now k fresh dups out s).store
  unfolding write_fresh keep_fresh note_rejected change_stats
  write_fresh_failed now k fresh dups none s e h = cc h
  write_fresh_failed now k [] dups (some w) s e h = cc h
  write_fresh_failed now k (c ∷ cs) dups (some w) s e h =
      elim (Option-cases (wr.write_chunks k (c ∷ cs) w).1) [
        | inl good ↦ cc (rw (good, write_fresh) at h)
        | inr (e', bad) ↦
            rw (bad, write_fresh)
              (
                refl,
                record {
                  same_received = refl;
                  same_seen = refl;
                  same_last_seq = refl;
                  same_gaps = refl;
                  same_datapoints = refl;
                },
              )
      ]

  -- When the writer fails, nothing counts as stored: no reading is accepted, and the next delivery of the
  -- same message finds the chunks as new as before.
  pub ingest_failed :
      (now : ℕ) (m : Message) (s : Store wr) (e : Text)
      → (ingest wr now m s).error ≡ some e
      → ((ingest wr now m s).accepted ≡ 0) × IsUnchanged s (ingest wr now m s).store
  unfolding ingest change_stats
  ingest_failed now m s e h =
      let k : StreamKey = record { gateway_id = m.gateway_id; stream_id = m.stream_id } in
      let (accepted, same) =
        write_fresh_failed now k (fresh_of wr k s.seen m.chunks) _ s.out _ e h in
      (
        accepted,
        record {
          same_received = same.same_received;
          same_seen = same.same_seen;
          same_last_seq = same.same_last_seq;
          same_gaps = same.same_gaps;
          same_datapoints = same.same_datapoints;
        },
      )

  -- What a refused message can have done to the database: nothing, or a write of these chunks that has
  -- itself failed, of which the database may keep a part.
  pub data IsTried (k : StreamKey) (cs : List WireChunk) (out out' : Option wr.W) : Type 0 where
    untouched : out' ≡ out → IsTried k cs out out'
    write_failed :
        (w : wr.W) (e : Text)
        → out ≡ some w
        → out' ≡ some (wr.write_chunks k cs w).0
        → (wr.write_chunks k cs w).1 ≡ some e
        → IsTried k cs out out'

  write_fresh-IsTried :
      (now : ℕ) (k : StreamKey) (fresh : List WireChunk) (dups : ℕ) (out : Option wr.W)
      (s : Store wr) (e : Text)
      → (write_fresh wr now k fresh dups out s).error ≡ some e
      → IsTried k fresh out (write_fresh wr now k fresh dups out s).store.out
  unfolding write_fresh keep_fresh note_rejected change_stats
  write_fresh-IsTried now k fresh dups none s e h = cc h
  write_fresh-IsTried now k [] dups (some w) s e h = cc h
  write_fresh-IsTried now k (c ∷ cs) dups (some w) s e h =
      elim (Option-cases (wr.write_chunks k (c ∷ cs) w).1) [
        | inl good ↦ cc (rw (good, write_fresh) at h)
        | inr (e', bad) ↦ rw (bad, write_fresh) (write_failed w e' refl refl bad)
      ]

  pub ingest-IsTried :
      (now : ℕ) (m : Message) (s : Store wr) (e : Text)
      → (ingest wr now m s).error ≡ some e
      → let k : StreamKey = record { gateway_id = m.gateway_id; stream_id = m.stream_id } in
        IsTried k (fresh_of wr k s.seen m.chunks) s.out (ingest wr now m s).store.out
  unfolding ingest change_stats
  ingest-IsTried now m s e h = write_fresh-IsTried now _ _ _ s.out _ e h

  -- What a database relies on to be heard: its errors have a text.
  abbrev pub NamesErrors : Type 0
  NamesErrors =
      (k : StreamKey) (cs : List WireChunk) (w : wr.W) → (wr.write_chunks k cs w).1 ≢ some []

  write_fresh_names :
      (now : ℕ) (k : StreamKey) (fresh : List WireChunk) (dups : ℕ) (out : Option wr.W)
      (s : Store wr)
      → NamesErrors
      → (write_fresh wr now k fresh dups out s).error ≢ some []
  unfolding write_fresh keep_fresh
  write_fresh_names now k fresh dups none s names h = cc h
  write_fresh_names now k [] dups (some w) s names h = cc h
  write_fresh_names now k (c ∷ cs) dups (some w) s names h =
      elim (Option-cases (wr.write_chunks k (c ∷ cs) w).1) [
        | inl good ↦ cc (rw (good, write_fresh) at h)
        | inr (e, bad) ↦ names k (c ∷ cs) w (bad ∙ (rw (bad, write_fresh) at h))
      ]

  pub ingest_names :
      (now : ℕ) (m : Message) (s : Store wr) → NamesErrors → (ingest wr now m s).error ≢ some []
  unfolding ingest
  ingest_names now m s names h =
      let k : StreamKey = record { gateway_id = m.gateway_id; stream_id = m.stream_id } in
      let fresh = fresh_of wr k s.seen m.chunks in
      let dups = length m.chunks - length fresh in
      write_fresh_names now k fresh dups s.out
        (change_stats wr k.gateway_id
          (λ g. record g { duplicate_chunks = add64 g.duplicate_chunks (wrap64 dups) }) s)
        names h
