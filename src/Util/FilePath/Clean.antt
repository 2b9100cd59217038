-- ===== src/Util/FilePath/Clean.antt =====
-- What `clean_relative_path` returns.
use ingot_engine.Base.{
  ◌≡◌, refl, sym, ap, ◌∙◌, false, List, [], ◌∷◌, ◌++◌, map, elem, All, All-append, arith,
}
use mathlib.Core.List.{append-nil, append_assoc}
use ingot_engine.Base.Text.{Text, same, is_empty, split, starts_with, strip_prefix}
use ingot_engine.Base.Text.Split.{split-alone, split-append}
use ingot_engine.Util.FilePath.{
  Component, root_dir, cur_dir, parent_dir, normal, piece, pieces, relative, slash, path_components,
  pop, clean_from, clean_relative_path, path_text,
}
use ingot_engine.Util.FilePath.Confined.{IsName, Named, path_components-Named}

pop-All : (ns : List Text) → All IsName ns → All IsName (pop ns)
unfolding pop
pop-All [] h = tt
pop-All (n ∷ []) h = tt
pop-All (n ∷ m ∷ ns) h = (h.0, pop-All (m ∷ ns) h.1)

clean_from-All :
    (out : List Text) (cs : List Component)
    → All IsName out
    → All Named cs
    → All IsName (clean_from out cs)
unfolding clean_from
clean_from-All out [] h k = h
clean_from-All out (normal c ∷ cs) h k =
    clean_from-All (out ++ c ∷ []) cs (All-append IsName out (c ∷ []) h (k.0, tt)) k.1
clean_from-All out (cur_dir ∷ cs) h k = clean_from-All out cs h k.1
clean_from-All out (parent_dir ∷ cs) h k = clean_from-All (pop out) cs (pop-All out h) k.1
clean_from-All out (root_dir ∷ cs) h k = clean_from-All out cs h k.1

-- Whatever the path, each component of the cleaned path is a name: not empty, with no slash, neither `.` nor
-- `..`. So the cleaned path is relative and never climbs.
pub clean_relative_path-IsName : (path : Text) → All IsName (clean_relative_path path)
unfolding clean_relative_path
clean_relative_path-IsName path =
    clean_from-All [] (path_components path) tt (path_components-Named path)

split-path_text :
    (n : Text) (ns : List Text) → All IsName (n ∷ ns) → split b'/' (path_text (n ∷ ns)) ≡ n ∷ ns
unfolding path_text
split-path_text n [] h = split-alone b'/' n h.0.no_slash
split-path_text n (m ∷ ns) h =
    split-append b'/' n (path_text (m ∷ ns)) h.0.no_slash
    ∙ ap (λ x. n ∷ x) (split-path_text m ns h.1)

pieces-names : (ns : List Text) → All IsName ns → pieces ns ≡ map normal ns
unfolding pieces piece
pieces-names [] h = refl
pieces-names (n ∷ ns) h = rw (h.0.some_char, h.0.not_dot, h.0.not_dots, pieces-names ns h.1)

no_slash-append :
    (n s : Text) → is_empty n ≡ false → elem b'/' n ≡ false → starts_with slash (n ++ s) ≡ false
unfolding starts_with strip_prefix elem
no_slash-append [] s e h = cc e
no_slash-append (c ∷ n) s e h = ground arith

no_slash-alone : (n : Text) → is_empty n ≡ false → elem b'/' n ≡ false → starts_with slash n ≡ false
unfolding starts_with strip_prefix elem
no_slash-alone [] e h = refl
no_slash-alone (c ∷ n) e h = ground arith

path_text-starts_with : (ns : List Text) → All IsName ns → starts_with slash (path_text ns) ≡ false
unfolding path_text
path_text-starts_with [] h = unfold starts_with strip_prefix in refl
path_text-starts_with (n ∷ []) h = no_slash-alone n h.0.some_char h.0.no_slash
path_text-starts_with (n ∷ m ∷ ns) h =
    no_slash-append n (b'/' ∷ path_text (m ∷ ns)) h.0.some_char h.0.no_slash

relative-names :
    (n : Text) (ns : List Text) → All IsName (n ∷ ns) → relative (n ∷ ns) ≡ map normal (n ∷ ns)
relative-names n ns h = rw h.0.not_dot (pieces-names (n ∷ ns) h)

path_components-path_text :
    (ns : List Text) → All IsName ns → path_components (path_text ns) ≡ map normal ns
unfolding path_components
path_components-path_text [] h =
    unfold path_text split starts_with strip_prefix pieces piece same in refl
path_components-path_text (n ∷ ns) h =
    rw (path_text-starts_with (n ∷ ns) h, split-path_text n ns h, relative-names n ns h) refl

clean_from-names : (out ns : List Text) → clean_from out (map normal ns) ≡ out ++ ns
unfolding clean_from
clean_from-names out [] = sym (append-nil out)
clean_from-names out (n ∷ ns) = clean_from-names (out ++ n ∷ []) ns ∙ append_assoc out (n ∷ []) ns

-- Cleaning the text of a cleaned path changes nothing.
pub clean_relative_path-path_text :
    (path : Text)
    → clean_relative_path (path_text (clean_relative_path path)) ≡ clean_relative_path path
unfolding clean_relative_path
clean_relative_path-path_text path =
    let names = clean_from [] (path_components path) in
    ap (clean_from []) (path_components-path_text names (clean_relative_path-IsName path))
    ∙ clean_from-names [] names
