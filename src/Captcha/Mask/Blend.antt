-- ===== src/Captcha/Mask/Blend.antt =====
-- src/services/captcha/drawing.rs: blending a mask onto the canvas touches what it covers, and
-- nothing else.
use captchapi.Prelude.{
  ℕ, ◌+◌, ◌*◌, ◌^◌, ◌<◌, ◌≡◌, ◌≢◌, refl, ◌⊎◌, inl, inr, ◌∙◌, ap, ℤ, pos, negsuc, true, false, ◌&&◌,
  some, arith, ltb, leb_ℤ, get_elem?, add_i32, Bool-cases,
}
use captchapi.Captcha.Floats.{Floats, clamp}
use captchapi.Captcha.Loop.{get_elem?-some, pixels-keeps, index-lt}
use captchapi.Captcha.Render.{Rgb}
use captchapi.Captcha.Mask.{
  GlyphMask, Canvas, as_i32, as_u32, inside, composite_pixel, composite_shaded,
}
use captchapi.Captcha.Mask.Bounds.{IsWellFormed, as_i32-id}

natural : (a : ℤ) (p : ℕ) → leb_ℤ (pos 0) a ≡ true → a ≢ pos p → as_u32 a ≢ p
natural (pos n) p h k e = k (ap pos e)
natural (negsuc n) p h k e = absurd (ground arith)

apart :
    (a b : ℤ) (p q : ℕ)
    → leb_ℤ (pos 0) a ≡ true
    → leb_ℤ (pos 0) b ≡ true
    → (a ≢ pos p) ⊎ (b ≢ pos q)
    → (as_u32 a ≢ p) ⊎ (as_u32 b ≢ q)
apart a b p q ha hb (inl h) = inl (natural a p ha h)
apart a b p q ha hb (inr h) = inr (natural b q hb h)

in_canvas :
    (a : ℤ) (n w : ℕ)
    → w < 2 ^ 31
    → n ≡ w
    → inside (as_i32 w) a ≡ true
    → (leb_ℤ (pos 0) a ≡ true) × (as_u32 a < n)
in_canvas (pos a) n w small same h = (ground arith, ground (arith, as_i32-id w small))
in_canvas (negsuc a) n w small same h = absurd (ground arith)

module _ {f : Floats} (v : Canvas) (weighted_sum : Rgb → Rgb → f.F → f.F → Rgb) where
  open f use {F, lit, sub, le}
  open v use {Image, get_pixel, put_pixel, put_pixel-some, get_pixel-some}

  -- Where a pixel of the mask lands on the canvas.
  abbrev pub landing : GlyphMask f → ℤ → ℤ → ℕ → ℕ → ℤ × ℤ
  landing m x y gx gy =
      (add_i32 (add_i32 (as_i32 gx) x) m.left, add_i32 (add_i32 (as_i32 gy) y) m.top)

  -- No pixel of the mask with ink lands on the pixel (p, q) of the canvas.
  abbrev pub IsUncovered : GlyphMask f → ℤ → ℤ → ℕ → ℕ → Type 0
  IsUncovered m x y p q =
      (gx gy : ℕ) (gv : F)
      → gx < m.width
      → gy < m.height
      → get_elem? m.coverage (gy * m.width + gx) ≡ some gv
      → le gv (lit 0 1) ≡ false
      → ((landing m x y gx gy).0 ≢ pos p) ⊎ ((landing m x y gx gy).1 ≢ pos q)

  -- A canvas that came of another by blending pixels of the mask.
  pub record IsBlended (m : GlyphMask f) (x y : ℤ) (i j : Image) : Type 0 where
    pub width : v.width j ≡ v.width i
    pub height : v.height j ≡ v.height i
    pub kept : (p q : ℕ) → IsUncovered m x y p q → get_pixel j p q ≡ get_pixel i p q

  composite_pixel-IsBlended :
      (m : GlyphMask f) (x y : ℤ) (color_at : ℕ → ℕ → Rgb) (gx gy : ℕ) (i j : Image)
      → IsWellFormed m
      → v.width i < 2 ^ 31
      → v.height i < 2 ^ 31
      → gx < m.width
      → gy < m.height
      → IsBlended m x y i j
      → (k : Image) × (composite_pixel f v weighted_sum m
            (as_i32 (v.width i), as_i32 (v.height i))
            x
            y
            color_at
            gx
            gy
            j
          ≡ some k)
        × IsBlended m x y i k
  unfolding composite_pixel
  composite_pixel-IsBlended m x y color_at gx gy i j h small_w small_h hx hy b =
      let below = index-lt gx gy m.width m.height hx hy in
      let fits : ltb (gy * m.width + gx) (2 ^ 32) ≡ true = ground (arith, h.small, below) in
      let (gv, found) =
        get_elem?-some m.coverage (gy * m.width + gx) (omega (arith, h.sized, below)) in
      let at_x = (landing m x y gx gy).0 in
      let at_y = (landing m x y gx gy).1 in
      elim (Bool-cases (le gv (lit 0 1))) [
        | inl blank ↦ (j, rw (fits, found, blank) refl, b)
        | inr inked ↦
            elim (Bool-cases
              (inside (as_i32 (v.width i)) at_x && inside (as_i32 (v.height i)) at_y)) [
                | inr out ↦ (j, rw (fits, found, inked, out) refl, b)
                | inl within ↦
                    let (px, in_x) =
                      in_canvas at_x (v.width j) (v.width i) small_w b.width (ground arith) in
                    let (py, in_y) =
                      in_canvas at_y (v.height j) (v.height i) small_h b.height (ground arith) in
                    let (pixel, read) = get_pixel-some j (as_u32 at_x) (as_u32 at_y) in_x in_y in
                    let share = clamp f gv (lit 0 1) (lit 10 1) in
                    let (k, wrote, same_w, same_h, others) =
                      put_pixel-some j (as_u32 at_x) (as_u32 at_y)
                        (weighted_sum pixel (color_at gx gy) (sub (lit 10 1) share) share) in_x
                        in_y in
                    (
                      k,
                      rw (fits, found, inked, within, read) wrote,
                      record {
                        width = same_w ∙ b.width;
                        height = same_h ∙ b.height;
                        kept = λ p q un.
                            others p q (apart at_x at_y p q px py (un gx gy gv hx hy found inked))
                            ∙ b.kept p q un;
                      },
                    )
              ]
      ]

  -- Blending a well-formed mask anywhere onto a canvas, in whatever colours: no index leaves the
  -- mask or the canvas, the canvas keeps its size, and every pixel of it on which no ink of the mask
  -- lands is as it was.
  pub composite_shaded-IsBlended :
      (i : Image) (m : GlyphMask f) (x y : ℤ) (color_at : ℕ → ℕ → Rgb)
      → IsWellFormed m
      → v.width i < 2 ^ 31
      → v.height i < 2 ^ 31
      → (j : Image) × (composite_shaded f v weighted_sum i m x y color_at ≡ some j)
        × IsBlended m x y i j
  unfolding composite_shaded
  composite_shaded-IsBlended i m x y color_at h small_w small_h =
      pixels-keeps (IsBlended m x y i)
        (composite_pixel f v weighted_sum m (as_i32 (v.width i), as_i32 (v.height i)) x y color_at)
        m.width m.height
        (λ gx gy j hx hy b.
          composite_pixel-IsBlended m x y color_at gx gy i j h small_w small_h hx hy b)
        i (record { width = refl; height = refl; kept = λ p q un. refl })
