-- ===== src/Io/CopyOutput.antt =====
-- What a copy delivers: the bytes that were read, in order, with none left out.
use pipie.Prelude.{
  ◌≡◌, ◌≢◌, refl, sym, ap, ◌∙◌, inl, inr, Bool, true, false, none, some, List, [], ◌∷◌, ◌++◌,
  append_assoc, append-nil, Bytes, arith, Bool-cases, Option-cases, ◌&&◌,
}
use pipie.Io.Copy.{
  ReadResult, WriteResult, Why, waiting, peer_closed, fuel, read_failed, Copied, write_all,
  copy_loop, reader_to_conn,
}
use pipie.Io.WriteOutput.{WithinChunk, WriterHeld, write_all-Wrote}

-- `part` begins `whole`.
pub record Begins (part whole : Bytes) : Type 0 where
  pub rest : Bytes
  pub split : whole ≡ part ++ rest

-- The bytes of the reads up to the first that fails, or whose probe finds the peer gone.
unfoldable pub delivered : Bool → List ReadResult → Bytes
delivered check_write [] = []
delivered check_write (r ∷ rs) = elim r.error [
  | some e ↦ []
  | none ↦ elim (check_write && r.peer_eof) [
    | true ↦ []
    | false ↦ r.bytes ++ delivered check_write rs
  ]
]

module _ {W : Type 0} (write : W → Bytes → WriteResult × W) where
  -- A copy's output is what was there and a part of what the reader delivered: all of it if the
  -- writer held.
  record CopyOutput (check_write : Bool) (reads : List ReadResult) (output : Bytes) (c : Copied W)
      : Type 0 where
    some_reason : (y : Why) × (c.why ≡ some y) × (y ≢ fuel)
    all : WriterHeld c.why → c.output ≡ output ++ delivered check_write reads
    rest : Bytes
    part : output ++ delivered check_write reads ≡ c.output ++ rest

  module _ (check_write : Bool) (r : ReadResult) (rs : List ReadResult) (w : W)
      (output : Bytes) where
    copy_stops : (y : Why) → Copied W
    copy_stops y = record { writer = w; output = output; why = some y }

    copy_loop-failed :
        (e : Bytes)
        → r.error ≡ some e
        → (copy_loop write check_write (r ∷ rs) w output ≡ copy_stops (read_failed e))
          × (delivered check_write (r ∷ rs) ≡ [])
    unfolding copy_loop delivered copy_stops
    copy_loop-failed e q = (rw (q, copy_loop), rw (q, delivered))

    copy_loop-gone :
        r.error ≡ none
        → (check_write && r.peer_eof) ≡ true
        → (copy_loop write check_write (r ∷ rs) w output ≡ copy_stops peer_closed)
          × (delivered check_write (r ∷ rs) ≡ [])
    unfolding copy_loop delivered copy_stops
    copy_loop-gone q g = (rw (q, copy_loop) (rw g), rw (q, delivered) (rw (g, delivered)))

    copy_loop-next :
        r.error ≡ none
        → (check_write && r.peer_eof) ≡ false
        → (write_all write w r.bytes output).why ≡ none
        → let c = write_all write w r.bytes output in
          (copy_loop write check_write (r ∷ rs) w output
            ≡ copy_loop write check_write rs c.writer c.output)
          × (delivered check_write (r ∷ rs) ≡ r.bytes ++ delivered check_write rs)
    unfolding copy_loop delivered
    copy_loop-next q g n = (rw (q, copy_loop) (rw g (rw n)), rw (q, delivered) (rw (g, delivered)))

    copy_loop-writer :
        (y : Why)
        → r.error ≡ none
        → (check_write && r.peer_eof) ≡ false
        → (write_all write w r.bytes output).why ≡ some y
        → (copy_loop write check_write (r ∷ rs) w output ≡ write_all write w r.bytes output)
          × (delivered check_write (r ∷ rs) ≡ r.bytes ++ delivered check_write rs)
    unfolding copy_loop delivered
    copy_loop-writer y q g n =
        (rw (q, copy_loop) (rw g (rw n)), rw (q, delivered) (rw (g, delivered)))

  stops-CopyOutput :
      (check_write : Bool) (r : ReadResult) (rs : List ReadResult) (w : W) (output : Bytes)
      (y : Why)
      → y ≢ fuel
      → delivered check_write (r ∷ rs) ≡ []
      → CopyOutput check_write (r ∷ rs) output (copy_stops check_write r rs w output y)
  unfolding copy_stops
  stops-CopyOutput check_write r rs w output y n d = record {
    some_reason = (y, refl, n);
    all = λ _. rw (d, append-nil);
    rest = [];
    part = rw d;
  }

  copy_round :
      (check_write : Bool) (r : ReadResult) (rs : List ReadResult) (w : W) (output : Bytes)
      → WithinChunk write
      → ((v : W) (o : Bytes) → CopyOutput check_write rs o (copy_loop write check_write rs v o))
      → CopyOutput check_write (r ∷ rs) output (copy_loop write check_write (r ∷ rs) w output)
  copy_round check_write r rs w output law ih = elim (Option-cases r.error) [
    | inr (e, q) ↦
        let (same, nothing) = copy_loop-failed check_write r rs w output e q in
        rw same (stops-CopyOutput check_write r rs w output (read_failed e) (λ x. cc) nothing)
    | inl q ↦ elim (Bool-cases (check_write && r.peer_eof)) [
      | inl gone ↦
          let (same, nothing) = copy_loop-gone check_write r rs w output q gone in
          rw same (stops-CopyOutput check_write r rs w output peer_closed (λ x. cc) nothing)
      | inr there ↦
          let c = write_all write w r.bytes output in
          let o = write_all-Wrote write w r.bytes output law in
          elim (Option-cases c.why) [
            | inl n ↦
                let (same, more) = copy_loop-next check_write r rs w output q there n in
                let i = ih c.writer c.output in
                let assoc : output ++ (r.bytes ++ delivered check_write rs)
                    ≡ c.output ++ delivered check_write rs =
                  sym (append_assoc output r.bytes _)
                  ∙ ap (λ t. t ++ delivered check_write rs) (sym (o.all n)) in
                rw same (record {
                  some_reason = i.some_reason;
                  all = λ h. rw more (i.all h ∙ sym assoc);
                  rest = i.rest;
                  part = rw more (assoc ∙ i.part);
                })
            | inr (y, n) ↦
                let (same, more) = copy_loop-writer check_write r rs w output y q there n in
                rw same (record {
                  some_reason = (y, n, λ e. o.no_fuel (n ∙ ap some e));
                  all = λ h. absurd (ground (arith, o.held h));
                  rest = o.rest ++ delivered check_write rs;
                  part =
                      rw (more, ← append_assoc output r.bytes, ← append_assoc c.output o.rest)
                        (ap (λ t. t ++ delivered check_write rs) o.part);
                })
          ]
    ]
  ]

  copy_loop-output :
      (check_write : Bool) (reads : List ReadResult) (w : W) (output : Bytes)
      → WithinChunk write
      → CopyOutput check_write reads output (copy_loop write check_write reads w output)
  unfolding copy_loop delivered
  copy_loop-output check_write [] w output law = record {
    some_reason = (waiting, refl, λ e. cc);
    all = λ _. sym (append-nil output);
    rest = [];
    part = refl;
  }
  copy_loop-output check_write (r ∷ rs) w output law =
      copy_round check_write r rs w output law (λ v o. copy_loop-output check_write rs v o law)

  -- If no write takes more than it is given, a copy ends for a reason other than lost rounds, and
  -- what the writer took by then begins the bytes of the reads, in order, up to the first
  -- that failed or whose probe found the peer gone.
  pub reader_to_conn-Begins :
      (check_write : Bool) (reads : List ReadResult) (w : W)
      → WithinChunk write
      → let c = reader_to_conn write reads check_write w in
        ((y : Why) × (c.why ≡ some y) × (y ≢ fuel)) × Begins c.output (delivered check_write reads)
  unfolding reader_to_conn
  reader_to_conn-Begins check_write reads w law =
      let o = copy_loop-output check_write reads w [] law in
      (o.some_reason, record { rest = o.rest; split = o.part })

  -- If no write takes more than it is given, and the copy did not end by a write that failed or took
  -- nothing, the writer took exactly the bytes of the reads, in order, up to
  -- the first that failed or whose probe found the peer gone.
  pub reader_to_conn-delivers :
      (check_write : Bool) (reads : List ReadResult) (w : W)
      → WithinChunk write
      → WriterHeld (reader_to_conn write reads check_write w).why
      → (reader_to_conn write reads check_write w).output ≡ delivered check_write reads
  unfolding reader_to_conn
  reader_to_conn-delivers check_write reads w law =
      (copy_loop-output check_write reads w [] law).all
