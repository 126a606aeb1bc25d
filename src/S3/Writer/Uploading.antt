-- ===== src/S3/Writer/Uploading.antt =====
-- What the calls of S3Writer leave in the writer: its bytes in parts of an open upload, in order.
use mathlib.Core.List.{append_assoc, append-nil}
use fusio.Base.{
  ℕ, suc, ◌+◌, ◌≤◌, ◌≡◌, ◌<◌, ◌∙◌, refl, sym, ap, subst, List, [], ◌∷◌, ◌++◌, length, Option, none,
  some, Bool-cases, inl, inr, ltb, Text, arith,
}
use fusio.Effect.{Result, ok, ◌>>=◌}
use fusio.Memory.Tags.{All-last}
use fusio.S3.Writer.{
  Multipart, Fault, S3Writer, s3_part_minimum_size, raise_remote, call, set_id, id_or_initiate,
  push_part, upload_part, flush, put_bytes, write_all, upload_handlers,
}
use fusio.S3.Writer.Parts.{
  joined, IsInOrder, IsLarge, joined-last, IsInOrder-last, length-last, IsWriter,
}
use fusio.S3.Writer.Service.{AllKept, IsService}

-- The writer once its buffer is a part.
abbrev pub with_part : {W : Type 0} → S3Writer W → W → Text → S3Writer W
with_part s w id = record {
  world = w;
  upload_id = some id;
  next_part = s.next_part + 1;
  buf = [];
  handlers = s.handlers ++ ((s.next_part, s.buf) ∷ []);
}

pub with_part-IsWriter :
    {W : Type 0} (s : S3Writer W) (bytes : Text) (w : W) (id : Text)
    → IsWriter s bytes
    → IsWriter (with_part s w id) bytes
with_part-IsWriter s bytes w id h =
    let many = h.counted in
    record {
      counted = omega (arith, many, length-last s.handlers (s.next_part, s.buf));
      content =
          append-nil (joined (s.handlers ++ ((s.next_part, s.buf) ∷ [])))
          ∙ (joined-last s.handlers s.next_part s.buf ∙ h.content);
      started = tt;
      ordered = IsInOrder-last 0 s.next_part s.buf s.handlers h.ordered (omega (arith, many));
    }

module _ {W P : Type 0} (up : Multipart W P) (view : W → Text) (limit : ℕ)
    (Open : Text → W → Type 0) (Kept : Text → P → ℕ × Text → W → Type 0) where
  module _ (service : IsService up view limit Open Kept) where
    -- The writer's upload, if there is one, is open.
    abbrev pub IsOpen : Option Text → W → Type 0
    IsOpen none w = Unit
    IsOpen (some id) w = Open id w

    abbrev pub Uploads :
        Text → List (ℕ × Text) → ℕ → S3Writer W → Result Fault (List P) × S3Writer W → Type 0
    Uploads id hs k s o =
        (ps : List P) × (s' : S3Writer W) × (o ≡ (ok ps, s'))
        × (AllKept Kept id ps hs s'.world)
        × (Open id s'.world)
        × ((q : P) (x : ℕ × Text) → Kept id q x s.world → x.0 < k → Kept id q x s'.world)
        × (s'.next_part ≡ s.next_part)

    pub upload_handlers-Uploads :
        (id : Text) (hs : List (ℕ × Text)) (k : ℕ) (s : S3Writer W)
        → IsInOrder k hs
        → k + length hs ≤ limit
        → Open id s.world
        → Uploads id hs k s (upload_handlers up id hs s)
    unfolding upload_handlers call raise_remote
    upload_handlers-Uploads id [] k s o few live =
        ([], record s { handlers = [] }, refl, tt, live, λ q x h lt. h, refl)
    upload_handlers-Uploads id ((n, b) ∷ hs) k s (at, o) few live =
        let (p, w', e, live', new, old) = service.uploads id n b s.world live (omega (arith, at)) in
        let (ps, s2, e2, all, open2, old2, same) =
          upload_handlers-Uploads id hs (suc k) (record s { handlers = hs; world = w' }) o
            (omega arith) live' in
        rw (e, e2)
          (
            p ∷ ps,
            s2,
            refl,
            (old2 p (n, b) new (omega (arith, at)), all),
            open2,
            λ q x h lt. old2 q x (old q x h (omega (arith, at, lt))) (omega (arith, lt)),
            same,
          )

    abbrev pub Parts : S3Writer W → Result Fault Unit × S3Writer W → Type 0
    Parts s o = (w' : W) × (id : Text) × (o ≡ (ok tt, with_part s w' id)) × (Open id w')

    -- Into the writer's open upload.
    pub upload_part_again :
        (s : S3Writer W) (id : Text)
        → s.upload_id ≡ some id
        → upload_part up s ≡ (ok tt, with_part s s.world id)
    unfolding upload_part id_or_initiate push_part
    upload_part_again s id e =
        subst
          (λ o. ((id_or_initiate up o >>= (λ _. push_part up)) s) ≡ (ok tt, with_part s s.world id))
          (sym e)
          (ap (λ (o : Option Text). (ok tt, record (with_part s s.world id) { upload_id = o })) e)

    upload_part-Parts : (s : S3Writer W) → IsOpen s.upload_id s.world → Parts s (upload_part up s)
    unfolding upload_part
    upload_part-Parts s = by_id s.upload_id refl
      where
        by_id :
            (o : Option Text)
            → s.upload_id ≡ o
            → IsOpen o s.world
            → Parts s ((id_or_initiate up o >>= (λ _. push_part up)) s)
        by_id none e live =
            let (id, w', begun, opened) = service.initiates s.world in
            unfold id_or_initiate call raise_remote set_id push_part in
            rw begun (w', id, refl, opened)
        by_id (some id) e live =
            unfold id_or_initiate push_part in
            (
              s.world,
              id,
              ap (λ (o : Option Text). (ok tt, record (with_part s s.world id) { upload_id = o }))
                  e,
              live,
            )

    -- A call that answers Ok and leaves the bytes written, with large parts in an open upload, and at
    -- most so many parts.
    abbrev pub Writes : Text → ℕ → Result Fault Unit × S3Writer W → Type 0
    Writes bytes most o =
        (s' : S3Writer W) × (o ≡ (ok tt, s'))
        × IsWriter s' bytes
        × IsLarge s'.handlers
        × IsOpen s'.upload_id s'.world
        × (s'.next_part ≤ most)

    flush-Writes :
        (s : S3Writer W) (bytes : Text)
        → IsWriter s bytes
        → IsLarge s.handlers
        → IsOpen s.upload_id s.world
        → Writes bytes (s.next_part + 1) (flush up s)
    unfolding flush
    flush-Writes s bytes h l op = elim (Bool-cases (ltb s3_part_minimum_size (length s.buf))) [
      | inr q ↦ rw q (s, refl, h, l, op, omega arith)
      | inl q ↦
          (let (w', id, e, op') = upload_part-Parts s op in
            rw (q, e)
              (
                with_part s w' id,
                refl,
                with_part-IsWriter s bytes w' id h,
                All-last (λ (x : ℕ × Text). s3_part_minimum_size < length (x.1)) s.handlers
                    (s.next_part, s.buf) l (ground arith),
                op',
                omega arith,
              ))
    ]

    put-IsWriter :
        (s : S3Writer W) (bytes b : Text)
        → IsWriter s bytes
        → IsWriter (record s { buf = s.buf ++ b }) (bytes ++ b)
    put-IsWriter s bytes b h = record {
      counted = h.counted;
      content =
          sym (append_assoc (joined s.handlers) s.buf b) ∙ ap (λ (z : Text). z ++ b) h.content;
      started = h.started;
      ordered = h.ordered;
    }

    pub write_all-Writes :
        (s : S3Writer W) (bytes b : Text)
        → IsWriter s bytes
        → IsLarge s.handlers
        → IsOpen s.upload_id s.world
        → Writes (bytes ++ b) (s.next_part + 1) (write_all up b s)
    unfolding write_all put_bytes
    write_all-Writes s bytes b h l op =
        let (s1, e, h1, l1, op1, most) = flush-Writes s bytes h l op in
        rw e (record s1 { buf = s1.buf ++ b }, refl, put-IsWriter s1 bytes b h1, l1, op1, most)
