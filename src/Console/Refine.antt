-- ===== src/Console/Refine.antt =====
-- The screen of lib/conio.c shows what the terminal does, and its cursor stays on the screen.
use frog_os.Base.{ℕ, suc, ◌+◌, ◌-◌, ◌*◌, ◌/◌, ◌≤◌, ◌<◌, ◌≡◌, refl, ◌∙◌, sym, ap, arith}
use frog_os.Base.{List, [], ◌∷◌, ◌++◌, length, get_or, drop, replicate, length-set}
use frog_os.Base.{bit_and, bit_or, u8, u16, not32, ◌<<<◌, ◌>>>◌, ◌==◌, Bool-cases}
use frog_os.Base.{all_below, eq_below, leb, inl, inr}
use frog_os.Base.{true, false, drop_next, get_or-drop}
use native.Mathlib.Nat.{add-zero}
use frog_os.Console.{Screen, PortWrite, attrib, blank, move_csr, scroll, put_char, wrap, putch, cls}
use frog_os.Console.{strlen, puts_from, puts, fill, copy}
use frog_os.Console.Terminal.{Terminal, glyph, write, scrolled, put, put_all}
use frog_os.Console.Scroll.{scroll_rows, length-fill, length-copy, fill_all}

pub record IsOnScreen (s : Screen) : Type 0 where
  pub cells : length s.video ≡ 2000
  pub column : s.csr_x < 80
  pub row : s.csr_y < 25

abbrev pub terminal : Screen → Terminal
terminal s = record { cells = s.video; pos = s.csr_y * 80 + s.csr_x }

-- The latest writes set the cursor location registers of the CRT controller, high byte first.
abbrev pub ShowsCursor : Screen → Type 0
ShowsCursor s =
    (before : List PortWrite) × (hi : ℕ) × (lo : ℕ) × (s.ports
      ≡ before ++ ((0x3d4, 14) ∷ (0x3d5, hi) ∷ (0x3d4, 15) ∷ (0x3d5, lo) ∷ []))
    × (hi * 256 + lo ≡ s.csr_y * 80 + s.csr_x)

cell_eq : (c : ℕ) → c < 256 → u16 (bit_or c (attrib <<< 8)) ≡ glyph c
unfolding all_below
cell_eq c h = eq_below 256 (λ x. u16 (bit_or x (attrib <<< 8))) glyph c refl h

blank_eq : blank ≡ glyph 32
unfolding blank
blank_eq = refl

tab_eq : (x : ℕ) → x < 80 → bit_and (x + 8) (not32 7) ≡ x / 8 * 8 + 8
unfolding all_below
tab_eq x h = eq_below 80 (λ y. bit_and (y + 8) (not32 7)) (λ y. y / 8 * 8 + 8) x refl h

-- Between `put_char` and `scroll` the cursor may stand just below the screen.
abbrev Between : Screen → Terminal → Type 0
Between s t =
    (length s.video ≡ 2000)
    × (s.csr_x < 80)
    × (s.csr_y ≤ 25)
    × (terminal s ≡ t)
    × (s.csr_y ≡ 25 → s.csr_x ≡ 0)

put_char-Between :
    (c : ℕ) (s : Screen)
    → c < 256
    → IsOnScreen s
    → Between (wrap (put_char c s)) (write c (terminal s))
unfolding wrap put_char write
put_char-Between c s h v = ground (
  arith,
  cell_eq c h,
  tab_eq s.csr_x v.column,
  length-set s.video (s.csr_y * 80 + s.csr_x) (u16 (bit_or c (attrib <<< 8))),
)

scroll-Between :
    (s : Screen) (t : Terminal)
    → Between s t
    → IsOnScreen (scroll s) × (terminal (scroll s) ≡ scrolled t)
unfolding scroll scrolled
scroll-Between s t (len, column, row, e, edge) = elim (Bool-cases (leb 25 s.csr_y)) [
  | inl off ↦
      let below : s.csr_y ≡ 25 = ground arith in
      let temp : s.csr_y - 25 + 1 ≡ 1 = omega arith in
      let left : s.csr_x ≡ 0 = edge below in
      let end : (s.csr_y * 80 + s.csr_x == 2000) ≡ true = ground arith in
      let rows = scroll_rows s.video (glyph 32) 80 1920 (omega arith) len in
      let size =
        length-fill (copy s.video 0 80 1920) 1920 (glyph 32) 80
        ∙ length-copy s.video 0 80 1920
        ∙ len in
      rw (off, ← e, temp, blank_eq, end)
        (record { cells = size; column = column; row = omega arith }, rw (rows, left))
  | inr on ↦
      let not_end : (s.csr_y * 80 + s.csr_x == 2000) ≡ false = ground arith in
      rw (on, ← e, not_end) (record { cells = len; column = column; row = ground arith }, refl)
]

move_csr_lem :
    (s : Screen)
    → IsOnScreen s
    → IsOnScreen (move_csr s) × (terminal (move_csr s) ≡ terminal s) × ShowsCursor (move_csr s)
unfolding move_csr
move_csr_lem s v =
    let p = s.csr_y * 80 + s.csr_x in
    (
      record { cells = v.cells; column = v.column; row = v.row },
      refl,
      (s.ports, u8 (p >>> 8), u8 p, refl, omega (arith, v.column, v.row)),
    )

-- For a byte and a screen of 2000 cells with the cursor within its 25 rows of 80 cells, `putch`
-- does to the screen what the terminal does, scrolling included; the cursor stays within the
-- screen, and the last port writes set the hardware cursor to it.
pub putch_refines :
    (c : ℕ) (s : Screen)
    → c < 256
    → IsOnScreen s
    → IsOnScreen (putch c s) × (terminal (putch c s) ≡ put c (terminal s)) × ShowsCursor (putch c s)
unfolding putch put
putch_refines c s h v =
    let (on, e) = scroll-Between _ _ (put_char-Between c s h v) in
    let (on', e', shows) = move_csr_lem (scroll (wrap (put_char c s))) on in (on', e' ∙ e, shows)

-- A C string: bytes, none of them 0.
abbrev pub IsText : List ℕ → Type 0
IsText [] = Unit
IsText (c ∷ cs) = (0 < c) × (c < 256) × IsText cs

strlen-text : (cs rest : List ℕ) → IsText cs → strlen (cs ++ 0 ∷ rest) ≡ length cs
unfolding strlen
strlen-text [] rest h = refl
strlen-text (c ∷ cs) rest (pos, _, h) =
    let on : (c == 0) ≡ false = ground arith in rw (on, strlen-text cs rest h) (omega arith)

puts_from-suc :
    (n i : ℕ) (text : List ℕ) (s : Screen) (c : ℕ)
    → get_or text i 0 ≡ c
    → puts_from (suc n) i text s ≡ puts_from n (i + 1) text (putch c s)
unfolding puts_from
puts_from-suc n i text s c e = ap (λ d. puts_from n (i + 1) text (putch d s)) e

-- The loop from the index on at which the text's rest `cs` stands.
puts_from_refines :
    (i : ℕ) (cs rest text : List ℕ) (s : Screen)
    → drop i text ≡ cs ++ 0 ∷ rest
    → IsText cs
    → IsOnScreen s
    → IsOnScreen (puts_from (length cs) i text s)
      × (terminal (puts_from (length cs) i text s) ≡ put_all cs (terminal s))
unfolding put_all
puts_from_refines i [] rest text s e h v = unfold puts_from in (v, refl)
puts_from_refines i (c ∷ cs) rest text s e (pos, small, h) v =
    let at : get_or text i 0 ≡ c =
      ap (λ k. get_or text k 0) (sym (add-zero i))
      ∙ sym (get_or-drop i 0 text 0)
      ∙ ap (λ xs. get_or xs 0 0) e in
    let (on, shown, _) = putch_refines c s small v in
    rw (puts_from-suc (length cs) i text s c at, ← shown)
      (puts_from_refines (i + 1) cs rest text (putch c s) (drop_next i text _ c e) h on)

-- On a screen of 2000 cells with the cursor within it, `puts` of bytes that are not 0 and a 0 behind them writes those bytes, and no
-- more, to the terminal in order, whatever follows the 0; the cursor stays within the screen.
pub puts_refines :
    (cs rest : List ℕ) (s : Screen)
    → IsText cs
    → IsOnScreen s
    → IsOnScreen (puts (cs ++ 0 ∷ rest) s)
      × (terminal (puts (cs ++ 0 ∷ rest) s) ≡ put_all cs (terminal s))
unfolding puts
puts_refines cs rest s h v =
    rw (strlen-text cs rest h) (puts_from_refines 0 cs rest (cs ++ 0 ∷ rest) s refl h v)

abbrev pub cleared : Terminal
cleared = record { cells = replicate 2000 (glyph 0); pos = 0 }

-- On a screen of 2000 cells, `cls` leaves every cell at the attribute with no character, the cursor
-- at the first cell, and the hardware cursor set to it.
pub cls_clears :
    (s : Screen)
    → length s.video ≡ 2000
    → IsOnScreen (cls s) × (terminal (cls s) ≡ cleared) × ShowsCursor (cls s)
unfolding cls
cls_clears s len =
    let s' = record s { video = fill s.video 0 (glyph 0) (80 * 25); csr_x = 0; csr_y = 0 } in
    let clear = fill_all s.video (glyph 0) 2000 len in
    let size = length-fill s.video 0 (glyph 0) 2000 ∙ len in
    let (on, e, shows) =
      move_csr_lem s' (record { cells = size; column = omega arith; row = omega arith }) in
    (on, e ∙ ap (λ xs. record { cells = xs; pos = 0 }) clear, shows)
