-- ===== src/Spool/InFlight.antt =====
-- queue.go: `Append` and the number of records in flight.
use gta.Base.{
  ℕ, ◌+◌, ◌≡◌, refl, ◌∙◌, Bool, true, false, Option, none, some, List, if_elim, leb, ltb, not,
  length, nat_eq,
}
use gta.Base.Dict.{lookup}
use gta.Spool.Records.{header_size}
use gta.Spool.{
  Queue, AppendEnv, AppendResult, append, write, put_at, write_framed, write_record, write_rolled,
  roll_segment, after_write,
}
use gta.Spool.Writing.{rolled}

-- `Append` leaves the records in flight alone.
module _ (rec : List ℕ) (env : AppendEnv) where
  put_at-next_idx :
      (q : Queue) (seg : ℕ) (at : Option ℕ) (buf : List ℕ) (ok : Bool)
      → (put_at q seg at buf ok).0.next_idx ≡ q.next_idx
  unfolding put_at
  put_at-next_idx q seg none buf ok = refl
  put_at-next_idx q seg (some pos) buf ok = refl

  write-next_idx :
      (q : Queue) (handle : Option ℕ) (buf : List ℕ) (ok : Bool)
      → (write q handle buf ok).0.next_idx ≡ q.next_idx
  unfolding write
  write-next_idx q none buf ok = refl
  write-next_idx q (some seg) buf ok = put_at-next_idx q seg (lookup seg q.files) buf ok

  framed-next_idx : (q : Queue) → (write_framed q rec env).0.next_idx ≡ q.next_idx
  unfolding write_framed
  framed-next_idx q =
      if_elim (λ (w : Queue × Bool). w.0.next_idx ≡ q.next_idx) env.wrote _ _
        (λ e. write-next_idx q q.wr_file _ true) (λ e. write-next_idx q q.wr_file _ false)

  record-next_idx : (q : Queue) → (write_record q rec env).0.next_idx ≡ q.next_idx
  unfolding write_record write_rolled roll_segment
  record-next_idx q =
      if_elim (λ (w : Queue × Bool). w.0.next_idx ≡ q.next_idx) (leb q.seg_bytes q.wr_cur.offset) _
        _
        (λ full.
          if_elim (λ w. (write_rolled w rec env).0.next_idx ≡ q.next_idx) (not env.roll_synced) _ _
            (λ e. refl)
            (λ e.
              if_elim (λ w. (write_rolled w rec env).0.next_idx ≡ q.next_idx)
                (not env.segment_opened) _ _ (λ e'. refl) (λ e'. framed-next_idx (rolled q))))
        (λ more. framed-next_idx q)

  after-next_idx : (w : Queue × Bool) → (after_write w rec env).0.next_idx ≡ w.0.next_idx
  unfolding after_write
  after-next_idx (q, false) = refl
  after-next_idx (q, true) = refl

  pub append-next_idx : (q : Queue) → (append q rec env).0.next_idx ≡ q.next_idx
  unfolding append
  append-next_idx q =
      let P = λ (w : Queue × AppendResult). w.0.next_idx ≡ q.next_idx in
      if_elim P (ltb q.max_bytes (length rec)) _ _ (λ e. refl)
        (λ e.
          if_elim P q.closed _ _ (λ e'. refl)
            (λ e'.
              if_elim P (ltb q.max_bytes (q.bytes + (header_size + length rec))) _ _ (λ e''. refl)
                (λ e''. after-next_idx (write_record q rec env) ∙ record-next_idx q)))
