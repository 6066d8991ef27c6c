-- ===== src/Terminal/Cells.antt =====
-- What the changes of rows in vt100.vue keep of a predicate on cells.
use bzd.Prelude.{
  ℕ, zero, suc, ◌+◌, ◌≤◌, ◌<◌, ◌≡◌, sym, subst, Bool, true, false, some, List, [], ◌∷◌, ◌++◌,
  length, get_elem?, insert_idx, drop, take, arith, All,
}
use bzd.Terminal.{Cell, cell, bare, hole}
use bzd.Terminal.Screen.{Row, ensure_rows, pad_row, put, modify_row, write_cell}
use bzd.Terminal.Commands.{put_cells, bare_cells}
use bzd.Terminal.Ready.{lt-length-put}

module _ {A : Type 0} (P : A → Type 0) where
  pub All-append : (l m : List A) → All P l → All P m → All P (l ++ m)
  All-append [] m h k = k
  All-append (x ∷ l) m h k = (h.0, All-append l m h.1 k)

  pub All-take : (n : ℕ) (l : List A) → All P l → All P (take n l)
  All-take zero l h = tt
  All-take (suc n) [] h = tt
  All-take (suc n) (x ∷ l) h = (h.0, All-take n l h.1)

  pub All-drop : (n : ℕ) (l : List A) → All P l → All P (drop n l)
  All-drop zero l h = h
  All-drop (suc n) [] h = tt
  All-drop (suc n) (x ∷ l) h = All-drop n l h.1

  pub All-insert_idx : (x : ℕ) (c : A) (l : List A) → P c → All P l → All P (insert_idx l x c)
  All-insert_idx zero c l p h = (p, h)
  All-insert_idx (suc x) c [] p h = (p, tt)
  All-insert_idx (suc x) c (d ∷ l) p h = (h.0, All-insert_idx x c l p h.1)

  pub All-weaken : (Q : A → Type 0) (l : List A) → ((a : A) → P a → Q a) → All P l → All Q l
  All-weaken Q [] f h = tt
  All-weaken Q (x ∷ l) f h = (f x h.0, All-weaken Q l f h.1)

-- A cell with a style of that many, or one that is not a gap.
abbrev pub IsDrawnCell : ℕ → Cell → Type 0
IsDrawnCell n (cell c id) = id < n
IsDrawnCell n bare = Unit
IsDrawnCell n hole = ⊥

abbrev pub IsDrawnRow : ℕ → Row → Type 0
IsDrawnRow n row = All (IsDrawnCell n) row

abbrev pub AllDrawn : ℕ → List Row → Type 0
AllDrawn n rows = All (IsDrawnRow n) rows

pub IsDrawnCell-weaken : (n m : ℕ) → n ≤ m → (c : Cell) → IsDrawnCell n c → IsDrawnCell m c
IsDrawnCell-weaken n m le (cell c id) h = omega (arith, h, le)
IsDrawnCell-weaken n m le bare h = tt
IsDrawnCell-weaken n m le hole h = h

pub AllDrawn-weaken : (n m : ℕ) (rows : List Row) → n ≤ m → AllDrawn n rows → AllDrawn m rows
AllDrawn-weaken n m rows le h =
    All-weaken (IsDrawnRow n) (IsDrawnRow m) rows
      (λ row. All-weaken (IsDrawnCell n) (IsDrawnCell m) row (IsDrawnCell-weaken n m le)) h

module _ (n : ℕ) where
  pub AllDrawn-ensure_rows :
      (y : ℕ) (rows : List Row) → AllDrawn n rows → AllDrawn n (ensure_rows y rows)
  AllDrawn-ensure_rows zero [] h = (tt, tt)
  AllDrawn-ensure_rows zero (row ∷ rows) h = h
  AllDrawn-ensure_rows (suc y) [] h = (tt, AllDrawn-ensure_rows y [] tt)
  AllDrawn-ensure_rows (suc y) (row ∷ rows) h = (h.0, AllDrawn-ensure_rows y rows h.1)

  pub AllDrawn-modify_row :
      (f : Row → Row) (y : ℕ) (rows : List Row) {row : Row}
      → get_elem? rows y ≡ some row
      → (IsDrawnRow n row → IsDrawnRow n (f row))
      → AllDrawn n rows
      → AllDrawn n (modify_row y f rows)
  AllDrawn-modify_row f zero [] found keep h = tt
  AllDrawn-modify_row f (suc y) [] found keep h = tt
  AllDrawn-modify_row f zero (r ∷ rows) {row} found keep h =
      let same : r ≡ row = cc in
      (subst (λ q. IsDrawnRow n (f q)) (sym same) (keep (subst (IsDrawnRow n) same h.0)), h.1)
  AllDrawn-modify_row f (suc y) (r ∷ rows) found keep h =
      (h.0, AllDrawn-modify_row f y rows found keep h.1)

  pub IsDrawnRow-pad_row :
      (x : ℕ) (row : Row) → 0 < n → IsDrawnRow n row → IsDrawnRow n (pad_row x row)
  IsDrawnRow-pad_row zero row some_style h = h
  IsDrawnRow-pad_row (suc x) [] some_style h = (some_style, IsDrawnRow-pad_row x [] some_style tt)
  IsDrawnRow-pad_row (suc x) (c ∷ row) some_style h = (h.0, IsDrawnRow-pad_row x row some_style h.1)

  pub IsDrawnRow-put :
      (x : ℕ) (c : Cell) (row : Row)
      → x ≤ length row
      → IsDrawnCell n c
      → IsDrawnRow n row
      → IsDrawnRow n (put x c row)
  IsDrawnRow-put zero c [] le p h = (p, tt)
  IsDrawnRow-put zero c (d ∷ row) le p h = (p, h.1)
  IsDrawnRow-put (suc x) c [] le p h = absurd (omega (arith, le))
  IsDrawnRow-put (suc x) c (d ∷ row) le p h =
      (h.0, IsDrawnRow-put x c row (omega (arith, le)) p h.1)

  pub IsDrawnRow-write_cell :
      (on : Bool) (x : ℕ) (c : Cell) (row : Row)
      → x ≤ length row
      → IsDrawnCell n c
      → IsDrawnRow n row
      → IsDrawnRow n (write_cell on x c row)
  IsDrawnRow-write_cell true x c row le p h = All-insert_idx (IsDrawnCell n) x c row p h
  IsDrawnRow-write_cell false x c row le p h = IsDrawnRow-put x c row le p h

  pub IsDrawnRow-put_cells :
      (k x : ℕ) (c : Cell) (row : Row)
      → x ≤ length row
      → IsDrawnCell n c
      → IsDrawnRow n row
      → IsDrawnRow n (put_cells k x c row)
  IsDrawnRow-put_cells zero x c row le p h = h
  IsDrawnRow-put_cells (suc k) x c row le p h =
      IsDrawnRow-put_cells k (x + 1) c (put x c row) (omega (arith, lt-length-put x c row)) p
        (IsDrawnRow-put x c row le p h)

  pub IsDrawnRow-bare_cells : (k : ℕ) → IsDrawnRow n (bare_cells k)
  IsDrawnRow-bare_cells zero = tt
  IsDrawnRow-bare_cells (suc k) = (tt, IsDrawnRow-bare_cells k)
