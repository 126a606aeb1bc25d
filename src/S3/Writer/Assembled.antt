-- ===== src/S3/Writer/Assembled.antt =====
-- What S3Writer leaves on a service that works: all bytes that were written, in order.
use mathlib.Core.List.{append_assoc, append-nil}
use fusio.Base.{
  ℕ, ◌+◌, ◌≤◌, ◌≡◌, ◌<◌, ◌∙◌, refl, sym, ap, subst, List, [], ◌∷◌, ◌++◌, length, Option, none, some,
  true, ◌==◌, Text, arith,
}
use fusio.Effect.{Result, ok, Exec, ◌>>=◌, ◌>>◌}
use fusio.S3.Writer.{
  Multipart, Fault, S3Writer, raise, raise_remote, call, write_all, upload_rest, drain, complete,
  close_with, close,
}
use fusio.S3.Writer.Parts.{
  joined, IsInOrder, IsLarge, IsLargeButLast, IsLargeButLast-last, IsLarge-but_last, HasUpload,
  IsWriter,
}
use fusio.S3.Writer.Service.{AllKept, IsService}
use fusio.S3.Writer.Uploading.{
  with_part, with_part-IsWriter, IsOpen, upload_handlers-Uploads, upload_part_again,
  write_all-Writes,
}

module _ {W P : Type 0} (up : Multipart W P) (view : W → Text) (limit : ℕ)
    (Open : Text → W → Type 0) (Kept : Text → P → ℕ × Text → W → Type 0) where
  module _ (service : IsService up view limit Open Kept) where
    -- A call that answers Ok and leaves an object on the service.
    abbrev Leaves : Text → Result Fault Unit × S3Writer W → Type 0
    Leaves bytes o = (s' : S3Writer W) × (o ≡ (ok tt, s')) × (view s'.world ≡ bytes)

    length-AllKept :
        (id : Text) (ps : List P) (hs : List (ℕ × Text)) (w : W)
        → AllKept Kept id ps hs w
        → length ps ≡ length hs
    length-AllKept id [] [] w k = refl
    length-AllKept id [] (h ∷ hs) w k = absurd k
    length-AllKept id (p ∷ ps) [] w k = absurd k
    length-AllKept id (p ∷ ps) (h ∷ hs) w k = omega (arith, length-AllKept id ps hs w k.1)

    same_count : (a b : ℕ) → a ≡ b → (a == b) ≡ true
    same_count a b e = ground arith

    complete-Leaves :
        (id : Text) (s : S3Writer W) (hs : List (ℕ × Text)) (ps : List P)
        → AllKept Kept id ps hs s.world
        → Open id s.world
        → s.next_part ≡ length hs
        → IsInOrder 0 hs
        → IsLargeButLast hs
        → Leaves (joined hs) (complete up id ps s)
    unfolding complete call raise_remote
    complete-Leaves id s hs ps kept live n o l =
        let (w', e, seen) = service.completes id ps hs s.world live kept o l in
        rw (same_count s.next_part (length ps) (n ∙ sym (length-AllKept id ps hs s.world kept)), e)
          (record s { world = w' }, refl, seen)

    -- The last part of close, once the buffer is empty.
    drain-Leaves :
        (id : Text) (s : S3Writer W)
        → s.next_part ≡ length s.handlers
        → s.next_part ≤ limit
        → Open id s.world
        → IsInOrder 0 s.handlers
        → IsLargeButLast s.handlers
        → Leaves (joined s.handlers) ((drain up id >>= (λ parts. complete up id parts)) s)
    unfolding drain
    drain-Leaves id s n few live o l =
        let (ps, s2, e, kept, open2, old, same) =
          upload_handlers-Uploads up view limit Open Kept service id s.handlers 0 s o
            (omega (arith, n)) live in
        rw e (complete-Leaves id s2 s.handlers ps kept open2 (same ∙ n) o l)

    rest-Leaves :
        (id : Text) (b : Text) (s : S3Writer W) (bytes : Text)
        → s.buf ≡ b
        → s.upload_id ≡ some id
        → Open id s.world
        → s.next_part < limit
        → IsWriter s bytes
        → IsLarge s.handlers
        → Leaves bytes ((upload_rest up b >> drain up id >>= (λ parts. complete up id parts)) s)
    unfolding upload_rest
    rest-Leaves id [] s bytes e begun live few h l =
        let (s', q, seen) =
          drain-Leaves id s h.counted (omega arith) live h.ordered
            (IsLarge-but_last s.handlers l) in
        (
          s',
          q,
          seen
              ∙ (sym (ap (λ (z : Text). joined s.handlers ++ z) e ∙ append-nil (joined s.handlers))
                  ∙ h.content),
        )
    rest-Leaves id (c ∷ b) s bytes e begun live few h l =
        let h' = with_part-IsWriter s bytes s.world id h in
        rw (upload_part_again up view limit Open Kept service s id begun) (
          let (s', r, seen) =
            drain-Leaves id (with_part s s.world id) h'.counted (omega arith) live h'.ordered
              (IsLargeButLast-last s.next_part s.buf s.handlers l) in
          (
            s',
            r,
            seen
                ∙ (sym (append-nil (joined (s.handlers ++ ((s.next_part, s.buf) ∷ []))))
                    ∙ h'.content),
          ))

    close-Leaves :
        (s : S3Writer W) (bytes : Text)
        → IsWriter s bytes
        → IsLarge s.handlers
        → IsOpen up view limit Open Kept service s.upload_id s.world
        → s.next_part < limit
        → Leaves bytes (close up s)
    unfolding close close_with call raise
    close-Leaves s bytes h l op few = by_id s.upload_id refl op
      where
        by_id :
            (o : Option Text)
            → s.upload_id ≡ o
            → IsOpen up view limit Open Kept service o s.world
            → Leaves bytes (close_with up o s)
        by_id (some id) e live = rest-Leaves id s.buf s bytes refl e live few h l
        by_id none e live =
            let (w', q, seen) = service.stores s.buf s.world in
            let none_left : s.handlers ≡ [] =
              subst (λ (o : Option Text). HasUpload o s.handlers) e h.started in
            rw q (
              record s { world = w'; buf = [] },
              refl,
              seen ∙ (ap (λ (x : List (ℕ × Text)). joined x ++ s.buf) (sym none_left) ∙ h.content),
            )

    -- Calls of write_all in a row.
    abbrev pub write_in_turn : List Text → Exec Fault (S3Writer W) Unit
    write_in_turn [] s = (ok tt, s)
    write_in_turn (b ∷ bs) s = (write_all up b >> write_in_turn bs) s

    abbrev pub in_all : List Text → Text
    in_all [] = []
    in_all (b ∷ bs) = b ++ in_all bs

    -- Over a service that works, for a writer that holds some bytes in large parts and its buffer and
    -- whose upload, if it has one, is open, and where there are numbers for the parts it has and one
    -- more for each write and the close: the writes and a close answer Ok, and the object is those
    -- bytes followed by the bytes of the writes in order, whether it went as one object or in parts.
    -- The service is asked for a part only of an upload that is open, with a number below its limit,
    -- and for an object only of parts it has kept in that upload, with consecutive numbers, all but
    -- the last of more than the minimum size.
    pub close-write_in_turn :
        (bs : List Text) (s : S3Writer W) (bytes : Text)
        → IsWriter s bytes
        → IsLarge s.handlers
        → IsOpen up view limit Open Kept service s.upload_id s.world
        → s.next_part + length bs < limit
        → (s' : S3Writer W) × ((write_in_turn bs >> close up) s ≡ (ok tt, s'))
          × (view s'.world ≡ bytes ++ in_all bs)
    close-write_in_turn [] s bytes h l op few =
        let (s', e, seen) = close-Leaves s bytes h l op (omega arith) in
        (s', e, seen ∙ sym (append-nil bytes))
    close-write_in_turn (b ∷ bs) s bytes h l op few =
        let (s1, e, h1, l1, op1, most) =
          write_all-Writes up view limit Open Kept service s bytes b h l op in
        rw e (
          let (s', r, seen) = close-write_in_turn bs s1 (bytes ++ b) h1 l1 op1 (omega arith) in
          (s', r, seen ∙ append_assoc bytes b (in_all bs)))
