-- ===== src/Crtc/Rows.antt =====
-- src/6845_crtc.cpp: a frame from its top, row of characters by row of characters.
use beem.Base.{ℕ, zero, suc, ◌+◌, ◌*◌, ◌%◌, ◌<◌, ◌≤◌, ◌≡◌, ◌≢◌, refl, ap, subst, sym, ◌∙◌, arith}
use beem.Core.Bus.{Bus}
use beem.Crtc.State.{Crtc}
use beem.Crtc.Frame.{generate_next_address}
use beem.Crtc.Position.{IsAt}
use beem.Crtc.Row.{IsPlain, inside-character, last-character, row_end-character}

-- `n` characters, one after another.
unfoldable pub characters : ℕ → Crtc → Bus → Crtc × Bus
characters zero c b = (c, b)
characters (suc n) c b = let (c', b') = generate_next_address c b in characters n c' b'

-- As many more, in a sum that computes by the first number.
abbrev plus : ℕ → ℕ → ℕ
plus zero n = n
plus (suc m) n = suc (plus m n)

abbrev times : ℕ → ℕ → ℕ
times zero n = 0
times (suc m) n = plus n (times m n)

-- The characters of a line.
abbrev line : Crtc → ℕ
line z = plus z.reg_horz_total 1

plus_lem : (m n : ℕ) → plus m n ≡ m + n
plus_lem zero n = omega arith
plus_lem (suc m) n = omega (arith, plus_lem m n)

characters-plus :
    (m n : ℕ) (c : Crtc) (b : Bus)
    → characters (plus m n) c b ≡ characters n (characters m c b).0 (characters m c b).1
unfolding characters
characters-plus zero n c b = refl
characters-plus (suc m) n c b =
    characters-plus m n (generate_next_address c b).0 (generate_next_address c b).1

module _ {z : Crtc} (p : IsPlain z) {l : ℕ} (early : l ≢ z.reg_vert_total) where
  -- From character `k` on a line, `n` characters before its last.
  to_last :
      (n r k : ℕ) (c : Crtc) (b : Bus)
      → k + n ≡ z.reg_horz_total
      → IsAt z l r k c
      → IsAt z l r z.reg_horz_total (characters n c b).0
  unfolding characters
  to_last zero r k c b e s = subst (λ x. IsAt z l r x c) (omega arith) s
  to_last (suc n) r k c b e s =
      to_last n r (suc k) (generate_next_address c b).0 (generate_next_address c b).1 (omega arith)
        (inside-character p early b r k c (omega arith) s)

  whole_line :
      (r : ℕ) (c : Crtc) (b : Bus)
      → r < z.reg_rasters_per_char
      → IsAt z l r 0 c
      → IsAt z l (suc r) 0 (characters (line z) c b).0
  unfolding characters
  whole_line r c b inside s =
      subst (λ x. IsAt z l (suc r) 0 x.0) (sym (characters-plus z.reg_horz_total 1 c b))
        (last-character p early _ r _ inside (to_last z.reg_horz_total r 0 c b (omega arith) s))

  last_line :
      (c : Crtc) (b : Bus)
      → IsAt z l z.reg_rasters_per_char 0 c
      → IsAt z ((l + 1) % 128) 0 0 (characters (line z) c b).0
  unfolding characters
  last_line c b s =
      subst (λ x. IsAt z ((l + 1) % 128) 0 0 x.0) (sym (characters-plus z.reg_horz_total 1 c b))
        (row_end-character p early _ _ (to_last z.reg_horz_total _ 0 c b (omega arith) s))

  -- From raster line `r` on, `m` lines before the row's last.
  whole_row :
      (m r : ℕ) (c : Crtc) (b : Bus)
      → r + m ≡ z.reg_rasters_per_char
      → IsAt z l r 0 c
      → IsAt z ((l + 1) % 128) 0 0 (characters (times (suc m) (line z)) c b).0
  unfolding characters
  whole_row zero r c b e s =
      subst (λ x. IsAt z ((l + 1) % 128) 0 0 x.0) (sym (characters-plus (line z) 0 c b))
        (last_line c b (subst (λ x. IsAt z l x 0 c) (omega arith) s))
  whole_row (suc m) r c b e s =
      subst (λ x. IsAt z ((l + 1) % 128) 0 0 x.0)
        (sym (characters-plus (line z) (times (suc m) (line z)) c b))
        (whole_row m (suc r) _ _ (omega arith) (whole_line r c b (omega arith) s))

module _ {z : Crtc} (p : IsPlain z) where
  whole_rows :
      (n l : ℕ) (c : Crtc) (b : Bus)
      → l + n ≤ z.reg_vert_total
      → IsAt z l 0 0 c
      → IsAt z
          (l + n)
          0
          0
          (characters (times n (times (suc z.reg_rasters_per_char) (line z))) c b).0
  unfolding characters
  whole_rows zero l c b e s = subst (λ x. IsAt z x 0 0 c) (omega arith) s
  whole_rows (suc n) l c b e s =
      let row = times (suc z.reg_rasters_per_char) (line z) in
      let below = (characters row c b).0 in
      let below_bus = (characters row c b).1 in
      let early : l ≢ z.reg_vert_total = λ same. absurd (omega arith) in
      let next = whole_row p early z.reg_rasters_per_char 0 c b (omega arith) s in
      let next_l : (l + 1) % 128 ≡ suc l = omega (arith, p.vert_total) in
      subst (λ x. IsAt z (l + suc n) 0 0 x.0) (sym (characters-plus row (times n row) c b))
        (subst (λ x. IsAt z x 0 0 (characters (times n row) below below_bus).0) (omega arith)
          (whole_rows n (suc l) below below_bus (omega arith)
            (subst (λ x. IsAt z x 0 0 below) next_l next)))

times_lem : (m n : ℕ) → times m n ≡ m * n
times_lem zero n = omega arith
times_lem (suc m) n = omega (arith, times_lem m n, plus_lem n (times m n))

-- From the top of a frame, the CRTC comes to the start of each row of characters up to the last, and
-- after just as many characters as the rows before it have: each row has one line more than R9 says,
-- and each line one character more than R0 says. This is with an interlace mode (the low two bits of
-- R8) other than 3, in which the raster lines step by two, and with registers that hold no more than
-- their bits.
pub characters-IsAt :
    (c : Crtc) (b : Bus) (n : ℕ)
    → IsPlain c
    → n ≤ c.reg_vert_total
    → IsAt c 0 0 0 c
    → IsAt c n 0 0 (characters (n * ((c.reg_rasters_per_char + 1) * (c.reg_horz_total + 1))) c b).0
characters-IsAt c b n p inside top =
    subst (λ m. IsAt c n 0 0 (characters m c b).0) count
      (subst (λ x. IsAt c x 0 0 (characters (times n row) c b).0) (omega arith)
        (whole_rows p n 0 c b (omega arith) top))
  where
    row : ℕ
    row = times (suc c.reg_rasters_per_char) (line c)

    suc_lem : suc c.reg_rasters_per_char ≡ c.reg_rasters_per_char + 1
    suc_lem = omega arith

    count :
        times n (times (suc c.reg_rasters_per_char) (line c))
        ≡ n * ((c.reg_rasters_per_char + 1) * (c.reg_horz_total + 1))
    count =
        times_lem n _
        ∙ ap (λ m. n * m)
            (times_lem (suc c.reg_rasters_per_char) (line c)
              ∙ ap (λ m. suc c.reg_rasters_per_char * m) (plus_lem c.reg_horz_total 1)
              ∙ ap (λ m. m * (c.reg_horz_total + 1)) suc_lem)
