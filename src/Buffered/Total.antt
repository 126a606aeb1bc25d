-- ===== src/Buffered/Total.antt =====
-- What has been written in all: the inner writer's bytes and the buffer's.
use fusio.Base.{
  ℕ, ◌+◌, ◌≡◌, ◌∙◌, refl, sym, ap, subst, List, [], ◌∷◌, ◌++◌, length, none, some, ltb, inl, inr,
  Bool-cases, Text,
}
use fusio.Effect.{Result, ok, Exec, ◌>>◌, bind_cases}
use fusio.Manifest.Types.{FsError}
use fusio.Buffered.{
  Writer, Fault, Buffered, raised, inner, set_buf, flush_taken, flush, extend, write_with,
  write_all, close, write_each,
}

-- A writer that works: `sink` is what its world holds of the file.
pub record Works {W : Type 0} (f : Writer W) (sink : W → Text) : Type 0 where
  pub writes : (b : Text) (w : W) → (f.inner_write_all b w).0 ≡ ok tt
  pub grows : (b : Text) (w : W) → sink (f.inner_write_all b w).1 ≡ sink w ++ b
  pub flushes : (w : W) → (f.inner_flush w).0 ≡ ok tt
  pub flush_keeps : (w : W) → sink (f.inner_flush w).1 ≡ sink w
  pub closes : (w : W) → (f.inner_close w).0 ≡ ok tt
  pub close_keeps : (w : W) → sink (f.inner_close w).1 ≡ sink w

-- The bytes of several writes.
abbrev pub joined : List Text → Text
joined [] = []
joined (b ∷ bs) = b ++ joined bs

app_assoc : (a b c : Text) → (a ++ b) ++ c ≡ a ++ (b ++ c)
app_assoc [] b c = refl
app_assoc (x ∷ a) b c = ap (λ t. x ∷ t) (app_assoc a b c)

app_nil : (a : Text) → a ++ [] ≡ a
app_nil [] = refl
app_nil (x ∷ a) = ap (λ t. x ∷ t) (app_nil a)

module _ {W : Type 0} (f : Writer W) (sink : W → Text) (works : Works f sink) where
  -- There is a buffer, and with it the text was written in all.
  abbrev pub Written : Text → Buffered W → Type 0
  Written t s = (held : Text) × (s.buf ≡ some held) × (sink s.world ++ held ≡ t)

  -- The call has returned Ok, and its state has the property.
  abbrev pub Done : (Buffered W → Type 0) → Result Fault Unit × Buffered W → Type 0
  Done P o = (o.0 ≡ ok tt) × P (o.1)

  then-Done :
      (P Q : Buffered W → Type 0) (m n : Exec Fault (Buffered W) Unit) (s : Buffered W)
      → Done P (m s)
      → ((s : Buffered W) → P s → Done Q (n s))
      → Done Q ((m >> n) s)
  then-Done P Q m n s (e, p) next =
      bind_cases (Done Q) (λ _. n) m s (λ _ _. next (m s).1 p) (λ x q. cc) (λ q. cc)

  inner-Done :
      (m : Exec FsError W Unit) (P : Buffered W → Type 0) (s : Buffered W)
      → (m s.world).0 ≡ ok tt
      → P (record s { world = (m s.world).1 })
      → Done P (inner m s)
  unfolding inner raised
  inner-Done m P s e p = (ap raised e, p)

  -- All is in the file, and the buffer is empty.
  abbrev Flushed : Text → Buffered W → Type 0
  Flushed t s = (s.buf ≡ some []) × (sink s.world ≡ t)

  flush-Done : (t : Text) (s : Buffered W) → Written t s → Done (Flushed t) (flush f s)
  unfolding flush
  flush-Done t s (held, e, total) =
      subst (λ b. Done (Flushed t) (flush_taken f b s)) (sym e)
        (unfold flush_taken set_buf in
          let s1 : Buffered W = record s { buf = none } in
          then-Done (λ x. sink x.world ≡ t) (Flushed t) (inner (f.inner_write_all held))
            (set_buf (some []) >> inner f.inner_flush) s1
            (inner-Done (f.inner_write_all held) (λ x. sink x.world ≡ t) s1
              (works.writes held s.world) (works.grows held s.world ∙ total))
            (λ x k.
              let x1 : Buffered W = record x { buf = some [] } in
              inner-Done f.inner_flush (Flushed t) x1 (works.flushes x.world)
                (refl, works.flush_keeps x.world ∙ k)))

  write_all-Done :
      (capacity : ℕ) (b t : Text) (s : Buffered W)
      → Written t s
      → Done (Written (t ++ b)) (write_all f capacity b s)
  unfolding write_all
  write_all-Done capacity b t s (held, e, total) =
      subst (λ o. Done (Written (t ++ b)) (write_with f capacity b o s)) (sym e)
        (unfold write_with extend set_buf in
          elim (Bool-cases (ltb capacity (length held + length b))) [
            | inl q ↦ rw q (
                then-Done (Flushed t) (Written (t ++ b)) (flush f) (inner (f.inner_write_all b)) s
                  (flush-Done t s (held, e, total))
                  (λ x (empty, k).
                    inner-Done (f.inner_write_all b) (Written (t ++ b)) x (works.writes b x.world) (
                      [],
                      empty,
                      app_nil (sink (f.inner_write_all b x.world).1)
                          ∙ works.grows b x.world
                          ∙ ap (λ z. z ++ b) k,
                    )))
            | inr q ↦ rw q (
              refl,
              (held ++ b, refl, sym (app_assoc (sink s.world) held b) ∙ ap (λ z. z ++ b) total),
            )
          ])

  write_each-Done :
      (capacity : ℕ) (bs : List Text) (t : Text) (s : Buffered W)
      → Written t s
      → Done (Written (t ++ joined bs)) (write_each f capacity bs s)
  unfolding write_each
  write_each-Done capacity [] t s h = (refl, subst (λ z. Written z s) (sym (app_nil t)) h)
  write_each-Done capacity (b ∷ bs) t s h =
      then-Done (Written (t ++ b)) (Written (t ++ joined (b ∷ bs))) (write_all f capacity b)
        (write_each f capacity bs) s (write_all-Done capacity b t s h)
        (λ x k.
          subst (λ z. Done (Written z) (write_each f capacity bs x)) (app_assoc t b (joined bs))
            (write_each-Done capacity bs (t ++ b) x k))

  -- Over a writer that works, for any capacity: writes one after another and a close return Ok, and
  -- the file then holds what was written in all before, followed by the bytes of these writes in order.
  pub close-write_each :
      (capacity : ℕ) (bs : List Text) (t : Text) (s : Buffered W)
      → Written t s
      → let o = (write_each f capacity bs >> close f) s in
        (o.0 ≡ ok tt) × (sink (o.1).world ≡ t ++ joined bs)
  unfolding close
  close-write_each capacity bs t s h =
      then-Done (Written (t ++ joined bs)) (λ x. sink x.world ≡ t ++ joined bs)
        (write_each f capacity bs) (flush f >> inner f.inner_close) s
        (write_each-Done capacity bs t s h)
        (λ x k.
          then-Done (Flushed (t ++ joined bs)) (λ y. sink y.world ≡ t ++ joined bs) (flush f)
            (inner f.inner_close) x (flush-Done (t ++ joined bs) x k)
            (λ y (_, all).
              inner-Done f.inner_close (λ z. sink z.world ≡ t ++ joined bs) y (works.closes y.world)
                (works.close_keeps y.world ∙ all)))
