-- ===== src/Framing/Stanza.antt =====
-- `nextPart` cuts exactly one element off the bytes, whatever follows it.
use jreen.Base.{
  ℕ, zero, suc, ◌+◌, ◌-◌, ◌≤◌, false, [], ◌∷◌, ◌++◌, Text, ◌≡◌, ◌≢◌, refl, arith, length, ap, ◌∙◌,
  sym, take, drop, take-length, take-append, contains, contains-append, subst, append_assoc,
  length-append, get_or, take-append-drop,
}
use jreen.Framing.{Cut, upto, resume, close_tag, tag, scan, cut_part, next_part}
use jreen.Framing.Scan.{TagAt, end, behind, first_byte, last_byte, scan-tag}
use jreen.Framing.Element.{
  Element, Nodes, empty, element, nil, node, print, print_nodes, end_tag, IsPlain, ArePlain, tags,
  tags_nodes,
}

-- The loop has come to `j`, where `k` begins, with `d` tags open and the fuel given.
abbrev Reaches : Text → Text → ℕ → ℕ → Cut → Type 0
Reaches data' k fuel d cut = (j : ℕ) × (drop j data' ≡ k) × (cut ≡ resume (scan fuel data') j d)

module _ {data' lead inside rest : Text} {i : ℕ} (t : TagAt data' lead inside rest i)
    (fuel d : ℕ) where
  open_tag_lem :
      get_or (inside ++ b'>' ∷ []) 0 0 ≢ b'/'
      → get_or (b'<' ∷ inside) (length inside) 0 ≢ b'/'
      → Reaches data' rest fuel (suc d) (scan (suc fuel) data' i d)
  unfolding tag
  open_tag_lem f l =
      (end t + 1, behind t, scan-tag t fuel d ∙ ground (arith, first_byte t, last_byte t))

  empty_tag_lem :
      get_or (inside ++ b'>' ∷ []) 0 0 ≢ b'/'
      → get_or (b'<' ∷ inside) (length inside) 0 ≡ b'/'
      → Reaches data' rest fuel d (scan (suc fuel) data' i d)
  unfolding tag
  empty_tag_lem f l =
      (end t + 1, behind t, scan-tag t fuel d ∙ ground (arith, first_byte t, last_byte t))

  end_tag_lem :
      get_or (inside ++ b'>' ∷ []) 0 0 ≡ b'/'
      → Reaches data' rest fuel d (scan (suc fuel) data' i (suc d))
  unfolding tag close_tag
  end_tag_lem f = (end t + 1, behind t, scan-tag t fuel (suc d) ∙ ground (arith, first_byte t))

-- The bytes of an empty tag: the `/` is the last, and is the first only where nothing else is there.
first_before_slash :
    (inside : Text)
    → get_or (inside ++ b'/' ∷ []) 0 0 ≢ b'/'
    → get_or ((inside ++ b'/' ∷ []) ++ b'>' ∷ []) 0 0 ≢ b'/'
first_before_slash [] h = h
first_before_slash (c ∷ s) h = h

last_is_slash :
    (c : ℕ) (s : Text) → get_or (c ∷ (s ++ b'/' ∷ [])) (length (s ++ b'/' ∷ [])) 0 ≡ b'/'
last_is_slash c [] = refl
last_is_slash c (d ∷ s) = last_is_slash d s

slash_plain : contains b'>' (b'/' ∷ []) ≡ false
unfolding contains
slash_plain = refl

end_plain : (name : Text) → contains b'>' name ≡ false → contains b'>' (b'/' ∷ name) ≡ false
unfolding contains
end_plain name h = ground arith

mutual
  unfolding print tags resume

  scan-element :
      (e : Element) (data' lead k : Text) (i d fuel f : ℕ)
      → IsPlain e
      → contains b'<' lead ≡ false
      → drop i data' ≡ lead ++ print e k
      → fuel ≡ tags e + f
      → Reaches data' k f d (scan fuel data' i d)
  scan-element (empty inside) data' lead k i d zero f p o h e = absurd (omega arith)
  scan-element (empty inside) data' lead k i d (suc fuel) f p o h e =
      let t : TagAt data' lead (inside ++ b'/' ∷ []) k i = record {
        here = h;
        no_open = o;
        no_close = contains-append b'>' inside (b'/' ∷ []) p.0 slash_plain;
      } in
      let same : fuel ≡ f = omega arith in
      subst (λ n. Reaches data' k n d (scan (suc fuel) data' i d)) same
        (empty_tag_lem t fuel d (first_before_slash inside p.1) (last_is_slash b'<' inside))
  scan-element (element inside text nodes name) data' lead k i d zero f p o h e =
      absurd (omega arith)
  scan-element (element inside text nodes name) data' lead k i d (suc fuel) f p o h e =
      let t : TagAt data' lead inside (text ++ print_nodes nodes (end_tag name k)) i = record {
        here = h;
        no_open = o;
        no_close = p.0;
      } in
      let (j, at, q) = open_tag_lem t fuel d p.1 p.2 in
      let (j', at', r) =
        scan-nodes nodes data' text name k j d fuel f p.4 p.3 p.5 at (omega arith) in
      (j', at', q ∙ r)

  scan-nodes :
      (ns : Nodes) (data' lead name k : Text) (i d fuel f : ℕ)
      → ArePlain ns
      → contains b'<' lead ≡ false
      → contains b'>' name ≡ false
      → drop i data' ≡ lead ++ print_nodes ns (end_tag name k)
      → fuel ≡ tags_nodes ns + suc f
      → Reaches data' k f d (scan fuel data' i (suc d))
  scan-nodes nil data' lead name k i d zero f p o c h e = absurd (omega arith)
  scan-nodes nil data' lead name k i d (suc fuel) f p o c h e =
      let t : TagAt data' lead (b'/' ∷ name) k i = record {
        here = h;
        no_open = o;
        no_close = end_plain name c;
      } in
      let same : fuel ≡ f = omega arith in
      subst (λ n. Reaches data' k n d (scan (suc fuel) data' i (suc d))) same
        (end_tag_lem t fuel d refl)
  scan-nodes (node x text ns) data' lead name k i d fuel f p o c h e =
      let rest = tags_nodes ns + suc f in
      let (j, at, q) =
        scan-element x data' lead (text ++ print_nodes ns (end_tag name k)) i (suc d) fuel rest p.0
          o h (omega arith) in
      let (j', at', r) = scan-nodes ns data' text name k j d rest f p.2 p.1 c at refl in
      (j', at', q ∙ r)

mutual
  unfolding print tags

  tags-le : (e : Element) (k : Text) → tags e + length k ≤ length (print e k)
  tags-le (empty inside) k = omega (arith, length-append (inside ++ b'/' ∷ []) (b'>' ∷ k))
  tags-le (element inside text nodes name) k = omega (
    arith,
    length-append inside (b'>' ∷ (text ++ print_nodes nodes (end_tag name k))),
    length-append text (print_nodes nodes (end_tag name k)),
    length-append name (b'>' ∷ k),
    tags_nodes-le nodes (end_tag name k),
  )

  tags_nodes-le : (ns : Nodes) (k : Text) → tags_nodes ns + length k ≤ length (print_nodes ns k)
  tags_nodes-le nil k = omega arith
  tags_nodes-le (node e text ns) k = omega (
    arith,
    tags-le e (text ++ print_nodes ns k),
    length-append text (print_nodes ns k),
    tags_nodes-le ns k,
  )

mutual
  unfolding print

  print-append : (e : Element) (a k : Text) → print e (a ++ k) ≡ print e a ++ k
  print-append (empty inside) a k = simp append_assoc
  print-append (element inside text nodes name) a k =
      simp (append_assoc, ← print_nodes-append nodes (end_tag name a) k)

  print_nodes-append : (ns : Nodes) (a k : Text) → print_nodes ns (a ++ k) ≡ print_nodes ns a ++ k
  print_nodes-append nil a k = refl
  print_nodes-append (node e text ns) a k =
      ap (λ z. print e (text ++ z)) (print_nodes-append ns a k)
      ∙ ap (print e) (sym (append_assoc text (print_nodes ns a) k))
      ∙ print-append e (text ++ print_nodes ns a) k

length-eq : (xs ys k : Text) → xs ++ k ≡ ys ++ k → length xs ≡ length ys
length-eq xs ys k e = omega (arith, ap length e, length-append xs k, length-append ys k)

append-cancel : (xs ys k : Text) → xs ++ k ≡ ys ++ k → xs ≡ ys
append-cancel xs ys k e =
    sym (take-length xs k)
    ∙ ap (take (length xs)) e
    ∙ take-append (length xs) ys k (length-eq xs ys k e)

cut_lem :
    (j : ℕ) (data' s k : Text)
    → drop j data' ≡ k
    → data' ≡ s ++ k
    → cut_part (upto j) data' ≡ record { result = s; rest = k; more = false }
unfolding cut_part
cut_lem j data' s k at e =
    let cut : take j data' ≡ s =
      append-cancel (take j data') s k
        (subst (λ (z : Text). take j data' ++ z ≡ s ++ k) at (take-append-drop j data' ∙ e)) in
    ground (arith, cut)

-- Behind the header of the stream, where one plain element stands behind text without a <, `nextPart`
-- cuts off that text and that element, up to the > of its end tag and no further, whatever follows.
-- Plain means that tags alone make up the element: no > stands inside a tag, so in no attribute, and
-- no < in a text, so there are no comments and no CDATA sections; a start tag has no / at its
-- beginning or end, and an empty tag none at its beginning.
pub next_part-print :
    (stray : ℕ) (lead : Text) (e : Element) (k : Text)
    → contains b'<' lead ≡ false
    → IsPlain e
    → next_part stray (lead ++ print e k) false
      ≡ record { result = lead ++ print e []; rest = k; more = false }
unfolding next_part resume
next_part-print stray lead e k o p =
    let data' = lead ++ print e k in
    let fuel = suc (length data') in
    let enough : fuel ≡ tags e + (fuel - tags e) =
      omega (arith, tags-le e k, length-append lead (print e k)) in
    let (j, at, q) = scan-element e data' lead k 0 0 fuel (fuel - tags e) p o refl enough in
    let split : data' ≡ (lead ++ print e []) ++ k =
      ap (λ z. lead ++ z) (print-append e [] k) ∙ sym (append_assoc lead (print e []) k) in
    ap (λ c. cut_part c data') q ∙ cut_lem j data' (lead ++ print e []) k at split
