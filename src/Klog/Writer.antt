-- ===== src/Klog/Writer.antt =====
-- Writing to the log: `klog_puts` keeps it well-formed, and text without control characters that
-- fits into the row stands there afterwards.
use phlox.Common.{
  ℕ, zero, suc, ◌+◌, ◌-◌, ◌%◌, ◌<◌, ◌≡◌, ◌∙◌, ap, Bool, true, false, not, ◌&&◌, ◌||◌, refl, arith,
  if◌then◌else◌, ltb, leb, ◌==◌, u32_mod, List, [], ◌∷◌, length, get_elem?, Option, some, none,
  Bool-cases, inl, inr,
}
use phlox.Klog.{
  Klog, n_rows, n_cols, scroll_rows, klog_init, new_top_row, new_row, put_spaces, put_char, put,
  klog_puts, copy_row, klog_get_row_abs, klog_get_current_row,
}
use phlox.Klog.Window.{IsWellFormed}

new_top_row-IsWellFormed : (k : Klog) → IsWellFormed k → IsWellFormed (new_top_row k)
unfolding new_top_row scroll_rows
new_top_row-IsWellFormed k w = record {
  counter = omega (arith, w.counter);
  top = omega (arith, w.top, w.counter);
  bottom = omega arith;
  cursor = w.cursor;
}

-- A new row needs no bound on the cursor, which it resets.
new_row-IsWellFormed :
    (k : Klog) → k.row_counter < u32_mod → k.top ≡ k.row_counter % n_rows → IsWellFormed (new_row k)
unfolding new_row new_top_row scroll_rows
new_row-IsWellFormed k counter top = record {
  counter = omega arith;
  top = omega arith;
  bottom = omega arith;
  cursor = omega arith;
}

put-IsWellFormed : (k : Klog) (ch : ℕ) → IsWellFormed k → IsWellFormed (put k ch)
unfolding put put_spaces put_char
put-IsWellFormed k ch w =
    let n = new_top_row-IsWellFormed k w in
    elim (Bool-cases (ch == 10)) [
      | inl a ↦ rw a (new_row-IsWellFormed k w.counter w.top)
      | inr a ↦ elim (Bool-cases (ch == 13)) [
        | inl b ↦
            rw (a, b)
              (record { counter = w.counter; top = w.top; bottom = w.bottom; cursor = omega arith })
        | inr b ↦ elim (Bool-cases (ch == 12)) [
          | inl c ↦
              rw (a, b, c)
                (elim (Bool-cases ((new_top_row k).cursor == 0)) [
                  | inl d ↦ rw d n
                  | inr d ↦ rw d (record {
                    counter = n.counter;
                    top = n.top;
                    bottom = n.bottom;
                    cursor = n.cursor;
                  })
                ])
          | inr c ↦
              rw (a, b, c)
                (elim (Bool-cases (leb n_cols (k.cursor + 1))) [
                  | inl d ↦ rw d (new_row-IsWellFormed (put_char k ch) w.counter w.top)
                  | inr d ↦ rw d (record {
                    counter = w.counter;
                    top = w.top;
                    bottom = w.bottom;
                    cursor = ground arith;
                  })
                ])
        ]
      ]
    ]

-- klog_puts with any string keeps the log well-formed: the cursor below 64, the top row the one
-- that the 32-bit row counter falls on, the bottom row the next one.
pub klog_puts-IsWellFormed :
    (k : Klog) (str : List ℕ) → IsWellFormed k → IsWellFormed (klog_puts k str)
unfolding klog_puts
klog_puts-IsWellFormed k [] w = w
klog_puts-IsWellFormed k (ch ∷ str) w =
    klog_puts-IsWellFormed (put k ch) str (put-IsWellFormed k ch w)

-- Whether a string has no line feed, carriage return or form feed.
abbrev pub is_text : List ℕ → Bool
is_text [] = true
is_text (ch ∷ str) = not (ch == 10 || ch == 13 || ch == 12) && is_text str

-- The character of a string that falls on a column, if the string starts at another.
abbrev pub char_at : List ℕ → (start column : ℕ) → Option ℕ
char_at str start column = if ltb column start then none else get_elem? str (column - start)

-- The string stands in the current row from the cursor on; the cursor stands behind it, and all
-- else is as it was.
pub record Written (k : Klog) (str : List ℕ) (k' : Klog) : Type 0 where
  pub row_counter : k'.row_counter ≡ k.row_counter
  pub top : k'.top ≡ k.top
  pub bottom : k'.bottom ≡ k.bottom
  pub cursor : k'.cursor ≡ k.cursor + length str
  pub there :
      (r c ch : ℕ)
      → char_at str k.cursor c ≡ some ch
      → k'.logbook r c ≡ (if r == k.top then ch else k.logbook r c)
  pub elsewhere : (r c : ℕ) → char_at str k.cursor c ≡ none → k'.logbook r c ≡ k.logbook r c

char_at-cons :
    (ch : ℕ) (str : List ℕ) (start c : ℕ)
    → char_at (ch ∷ str) start c ≡ (if c == start then some ch else char_at str (start + 1) c)
char_at-cons ch str start c = elim (Bool-cases (ltb start c)) [
  | inl e ↦
      let behind : c - start ≡ suc (c - (start + 1)) = ground arith in rw behind (ground arith)
  | inr e ↦ elim (Bool-cases (c == start)) [
    | inl f ↦ let first : c - start ≡ 0 = ground arith in rw first (ground arith)
    | inr f ↦ ground arith
  ]
]

put-text :
    (k : Klog) (ch : ℕ)
    → (ch == 10 || ch == 13 || ch == 12) ≡ false
    → k.cursor + 1 < n_cols
    → put k ch ≡ put_char k ch
unfolding put put_char
put-text k ch plain room = ground arith

-- klog_puts of a string without line feed, carriage return and form feed that ends before the last
-- column writes it into the top row from the cursor on, moves the cursor behind it, and changes
-- nothing else.
pub klog_puts-Written :
    (k : Klog) (str : List ℕ)
    → is_text str ≡ true
    → k.cursor + length str < n_cols
    → Written k str (klog_puts k str)
unfolding klog_puts put_char
klog_puts-Written k [] text room = record {
  row_counter = refl;
  top = refl;
  bottom = refl;
  cursor = omega arith;
  there = λ r c ch h. ground (arith, h);
  elsewhere = λ r c h. refl;
}
klog_puts-Written k (ch ∷ str) text room = rw (put-text k ch (ground arith) (omega arith)) (
    let w = klog_puts-Written (put_char k ch) str (ground arith) (omega arith) in
    record {
      row_counter = w.row_counter;
      top = w.top;
      bottom = w.bottom;
      cursor = omega (arith, w.cursor);
      there = λ r c x h.
          ground (arith, char_at-cons ch str k.cursor c, w.there r c x, w.elsewhere r c, h);
      elsewhere = λ r c h. ground (arith, char_at-cons ch str k.cursor c, w.elsewhere r c, h);
    })

pub klog_init-IsWellFormed : IsWellFormed klog_init
unfolding klog_init
klog_init-IsWellFormed = record {
  counter = omega arith;
  top = omega arith;
  bottom = omega arith;
  cursor = omega arith;
}

get_elem?-lt : (xs : List ℕ) (i x : ℕ) → get_elem? xs i ≡ some x → i < length xs
get_elem?-lt [] i x h = absurd (cc)
get_elem?-lt (y ∷ ys) zero x h = omega arith
get_elem?-lt (y ∷ ys) (suc i) x h = omega (arith, get_elem?-lt ys i x h)

char_at-lt :
    (str : List ℕ) (start c ch : ℕ) → char_at str start c ≡ some ch → c < start + length str
char_at-lt str start c ch h = elim (Bool-cases (ltb c start)) [
  | inl e ↦ absurd (ground (arith, e, h))
  | inr e ↦
      let at : get_elem? str (c - start) ≡ some ch = ground (arith, e, h) in
      ground (arith, get_elem?-lt str (c - start) ch at)
]

get_elem?-copy_row :
    (n : ℕ) (k : Klog) (index c i : ℕ)
    → i < n
    → get_elem? (copy_row n k index c) i ≡ some (k.logbook index (c + i))
unfolding copy_row
get_elem?-copy_row zero k index c i h = absurd (omega arith)
get_elem?-copy_row (suc n) k index c zero h = ap (λ j. some (k.logbook index j)) (omega arith)
get_elem?-copy_row (suc n) k index c (suc i) h =
    get_elem?-copy_row n k index (c + 1) i (omega arith)
    ∙ ap (λ j. some (k.logbook index j)) (omega arith)

-- In a well-formed log, after klog_puts of a string without line feed, carriage return and form
-- feed that ends before the last column, klog_get_current_row succeeds and its row has the string
-- from the column on where the cursor was.
pub klog_get_current_row-klog_puts :
    (k : Klog) (str : List ℕ)
    → IsWellFormed k
    → is_text str ≡ true
    → k.cursor + length str < n_cols
    → (row : List ℕ) × (klog_get_current_row (klog_puts k str) ≡ some row)
      × ((c ch : ℕ) → char_at str k.cursor c ≡ some ch → get_elem? row c ≡ some ch)
unfolding klog_get_current_row klog_get_row_abs
klog_get_current_row-klog_puts k str w text room =
    let k' = klog_puts k str in
    let written = klog_puts-Written k str text room in
    let low : leb n_rows k'.top ≡ false = ground (arith, written.top, w.top) in
    (
      copy_row n_cols k' k'.top 0,
      rw low refl,
      λ c ch h.
          let inside : c < n_cols = omega (arith, char_at-lt str k.cursor c ch h) in
          get_elem?-copy_row n_cols k' k'.top 0 c inside
          ∙ ap (λ x. some x) (ground (arith, written.there k'.top c ch h, written.top)),
    )
