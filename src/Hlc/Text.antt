-- ===== src/Hlc/Text.antt =====
-- The canonical text of a timestamp (crates/cbcl-core/src/hlc.rs): printing and recognising are
-- inverse, and nothing else is recognised.
use cbcl_rs.Prelude.{
  Bool-cases, List, Option, [], all, ap, arith, drop, drop-append, drop-get_elem?, drop_next, false,
  get_elem?, get_elem?-append_at, inl, inr, length, length-append, length-drop, length-take, none,
  refl, some, sym, take, take-append, take-append-drop, take_all, true, ℕ, ◌++◌, ◌∙◌, ◌∷◌, ◌≡◌, ◌≤◌,
}
use mathlib.Core.Path.{ap₂}
use cbcl_rs.Hlc.{
  is_byte, Hlc, u64_max, u32_max, hlc_prefix, hex, hex_value, render, parse, read_fields, is_framed,
  lower_hex, starts_with,
}
use cbcl_rs.Hlc.Order.{Fits}
use cbcl_rs.Hlc.Digits.{length-hex, hex-append, all-lower_hex-hex, hex_value-hex_lem, hex-hex_value}

-- The frame of a text around its two numbers.
text_of : List ℕ → List ℕ → List ℕ
text_of ps ls = hlc_prefix ++ ps ++ b'-' ∷ ls

module _ (ps ls : List ℕ) (long : length ps ≡ 16) (short : length ls ≡ 8) where
  take_ps : take 16 (ps ++ b'-' ∷ ls) ≡ ps
  take_ps = ap (λ (n : ℕ). take n (ps ++ b'-' ∷ ls)) (sym long) ∙ take-append ps (b'-' ∷ ls)

  drop_ps : drop 16 (ps ++ b'-' ∷ ls) ≡ b'-' ∷ ls
  drop_ps = ap (λ (n : ℕ). drop n (ps ++ b'-' ∷ ls)) (sym long) ∙ drop-append ps (b'-' ∷ ls)

  separator_ps : get_elem? (ps ++ b'-' ∷ ls) 16 ≡ some b'-'
  separator_ps =
      ap (λ (n : ℕ). get_elem? (ps ++ b'-' ∷ ls) n) (sym long) ∙ get_elem?-append_at ps b'-' ls

  is_framed-text_of : is_framed (text_of ps ls) ≡ true
  unfolding is_framed text_of starts_with
  is_framed-text_of = ground (arith, length-append ps (b'-' ∷ ls), separator_ps)

  physical-text_of : take 16 (drop 4 (text_of ps ls)) ≡ ps
  unfolding text_of
  physical-text_of = take_ps

  logical-text_of : take 8 (drop 21 (text_of ps ls)) ≡ ls
  unfolding text_of
  logical-text_of =
      ap (λ (l : List ℕ). take 8 l) (drop_next 16 (ps ++ b'-' ∷ ls) drop_ps) ∙ take_all 8 ls short

  parse-text_of : parse (text_of ps ls) ≡ read_fields ps ls
  unfolding parse
  parse-text_of = rw (is_framed-text_of, parse) (ap₂ read_fields physical-text_of logical-text_of)

read_fields-value :
    (ps ls : List ℕ)
    → all lower_hex ps ≡ true
    → all lower_hex ls ≡ true
    → hex_value 0 ps ≤ u64_max
    → hex_value 0 ls ≤ u32_max
    → read_fields ps ls ≡ some (record { physical_ms = hex_value 0 ps; logical = hex_value 0 ls })
unfolding read_fields
read_fields-value ps ls hp hl bp bl = ground arith

render-text_of : (h : Hlc) → render h ≡ text_of (hex 16 h.physical_ms []) (hex 8 h.logical [])
unfolding render text_of
render-text_of h =
    ap (λ (l : List ℕ). hlc_prefix ++ l) (hex-append 16 h.physical_ms (b'-' ∷ hex 8 h.logical []))

-- The text of a timestamp within the fixed widths is recognised as that timestamp.
pub parse-render : (h : Hlc) → Fits h → parse (render h) ≡ some h
parse-render h fits =
    let ps = hex 16 h.physical_ms [] in
    let ls = hex 8 h.logical [] in
    let long : length ps ≡ 16 = omega (arith, length-hex 16 h.physical_ms []) in
    let short : length ls ≡ 8 = omega (arith, length-hex 8 h.logical []) in
    let vp = hex_value-hex_lem 16 h.physical_ms (omega arith) in
    let vl = hex_value-hex_lem 8 h.logical (omega arith) in
    ap parse (render-text_of h)
    ∙ parse-text_of ps ls long short
    ∙ read_fields-value ps ls (all-lower_hex-hex 16 h.physical_ms [] refl)
        (all-lower_hex-hex 8 h.logical [] refl) (rw vp fits.0) (rw vl fits.1)
    ∙ ap some (λ i. record { physical_ms = vp i; logical = vl i })

starts_with-drop : (ps bs : List ℕ) → starts_with ps bs ≡ true → bs ≡ ps ++ drop (length ps) bs
unfolding starts_with
starts_with-drop [] bs h = refl
starts_with-drop (p ∷ ps) [] h = cc h
starts_with-drop (p ∷ ps) (b ∷ bs) h =
    ap₂ (λ (x : ℕ) (l : List ℕ). x ∷ l) (ground arith) (starts_with-drop ps bs (ground arith))

is_byte-eq : (b : ℕ) (o : Option ℕ) → is_byte b o ≡ true → o ≡ some b
is_byte-eq b none h = cc h
is_byte-eq b (some c) h = ap some (ground arith)

-- A framed text is the frame of its two fields.
framed :
    (text : List ℕ)
    → is_framed text ≡ true
    → text ≡ text_of (take 16 (drop 4 text)) (take 8 (drop 21 text))
unfolding is_framed text_of
framed text h =
    let rest = drop 4 text in
    let long : length text ≡ 29 = ground arith in
    let e : text ≡ hlc_prefix ++ rest = starts_with-drop hlc_prefix text (ground arith) in
    let at : get_elem? text 20 ≡ some b'-' = is_byte-eq b'-' (get_elem? text 20) (ground arith) in
    let at_rest : get_elem? rest 16 ≡ some b'-' =
      sym (ap (λ (l : List ℕ). get_elem? l 20) e) ∙ at in
    let tail : drop 17 rest ≡ take 8 (drop 21 text) =
      sym (take_all 8 (drop 17 rest) (omega (arith, length-drop 17 rest, length-drop 4 text)))
      ∙ ap (λ (l : List ℕ). take 8 l) (sym (ap (λ (l : List ℕ). drop 21 l) e)) in
    let split : rest ≡ take 16 rest ++ b'-' ∷ take 8 (drop 21 text) =
      sym (take-append-drop 16 rest)
      ∙ ap (λ (l : List ℕ). take 16 rest ++ l)
          (drop-get_elem? 16 rest at_rest ∙ ap (λ (l : List ℕ). b'-' ∷ l) tail) in
    e ∙ ap (λ (l : List ℕ). hlc_prefix ++ l) split

read_fields-inv :
    (ps ls : List ℕ) (h : Hlc)
    → read_fields ps ls ≡ some h
    → (all lower_hex ps ≡ true)
      × (all lower_hex ls ≡ true)
      × (h.physical_ms ≡ hex_value 0 ps)
      × (h.logical ≡ hex_value 0 ls)
unfolding read_fields
read_fields-inv ps ls h e = ground arith

parse-unframed : (text : List ℕ) → is_framed text ≡ false → parse text ≡ none
unfolding parse
parse-unframed text frame = rw (frame, parse) refl

length-framed : (text : List ℕ) → is_framed text ≡ true → length text ≡ 29
unfolding is_framed
length-framed text h = ground arith

parse-framed :
    (text : List ℕ)
    → is_framed text ≡ true
    → parse text ≡ read_fields (take 16 (drop 4 text)) (take 8 (drop 21 text))
unfolding parse
parse-framed text frame = rw (frame, parse) refl

-- Whatever is recognised is the canonical text of what it is recognised as.
pub render-parse : (text : List ℕ) (h : Hlc) → parse text ≡ some h → render h ≡ text
unfolding parse
render-parse text h e = elim (Bool-cases (is_framed text)) [
  | inr no_frame ↦ cc (parse-unframed text no_frame, e)
  | inl frame ↦
      let ps = take 16 (drop 4 text) in
      let ls = take 8 (drop 21 text) in
      let long : length text ≡ 29 = length-framed text frame in
      let (hp, hl, vp, vl) = read_fields-inv ps ls h (sym (parse-framed text frame) ∙ e) in
      let lp : length ps ≡ 16 = length-take 16 (drop 4 text) (omega (arith, length-drop 4 text)) in
      let ll : length ls ≡ 8 = length-take 8 (drop 21 text) (omega (arith, length-drop 21 text)) in
      render-text_of h
      ∙ ap₂ text_of (ap (λ (n : ℕ). hex 16 n []) vp ∙ hex-hex_value 16 ps hp lp)
          (ap (λ (n : ℕ). hex 8 n []) vl ∙ hex-hex_value 8 ls hl ll)
      ∙ sym (framed text frame)
]
