-- ===== src/DirectoryObserver/Watches.antt =====
-- Which paths directory_observer.c watches after a walk of the tree.
use linux_programming.Base.{
  ◌>>=◌, ◌≡◌, ◌⊎◌, ◌↔◌, inl, inr, sym, ◌∙◌, Bool-cases, List, [], ◌∷◌, Option, none, some,
  if◌then◌else◌,
}
use linux_programming.Base.Bytes.{Bytes}
use linux_programming.Libc.Str.{str_eq, eq_of_str_eq}
use linux_programming.DirectoryObserver.{Entry, Walk, add_watch, directory_action, visit, nftw}
use mathlib.Core.Path.{subst}

-- A path is among some paths.
unfoldable pub Among : List Bytes → Bytes → Type 0
Among [] p = ⊥
Among (w ∷ ws) p = (w ≡ p) ⊎ Among ws p

-- The paths of the directories among some entries.
unfoldable pub dirs : List Entry → List Bytes
dirs [] = []
dirs (e ∷ es) = let rest = dirs es in if e.is_dir then e.path ∷ rest else rest

-- `ws'` has the paths of `ws` and those of `new`.
abbrev pub Joins : List Bytes → List Bytes → List Bytes → Type 0
Joins ws new ws' = (p : Bytes) → Among ws' p ↔ (Among ws p ⊎ Among new p)

add_watch-Among : (q : Bytes) (ws : List Bytes) → Joins ws (q ∷ []) (add_watch q ws)
unfolding add_watch Among
add_watch-Among q [] p = (λ h. inr h, λ h. elim h [ inl x ↦ absurd x | inr x ↦ x ])
add_watch-Among q (w ∷ ws) p =
    let (into, back) = add_watch-Among q ws p in
    elim (Bool-cases (str_eq q w)) [
      | inl e ↦ rw e (
        λ h. inl h,
        λ h. elim h [
          | inl x ↦ x
          | inr (inl x) ↦ inl (sym (eq_of_str_eq q w e) ∙ x)
          | inr (inr x) ↦ absurd x
        ],
      )
      | inr e ↦ rw e (
        λ h. elim h [
          | inl x ↦ inl (inl x)
          | inr x ↦ elim (into x) [ inl y ↦ inl (inr y) | inr y ↦ inr y ]
        ],
        λ h. elim h [
          | inl (inl x) ↦ inl x
          | inl (inr x) ↦ inr (back (inl x))
          | inr x ↦ inr (back (inr x))
        ],
      )
    ]

-- What a call that succeeds has added.
data Adds (ws new : List Bytes) : Option (List Bytes) → Type 0 where
  adds : {ws' : List Bytes} → Joins ws new ws' → Adds ws new (some ws')
  fails : Adds ws new none

same : (ws : List Bytes) → Joins ws [] ws
unfolding Among
same ws p = (λ h. inl h, λ h. elim h [ inl x ↦ x | inr x ↦ absurd x ])

directory_action-Adds :
    (e : Entry) (ws : List Bytes) → Adds ws (dirs (e ∷ [])) (directory_action e ws)
unfolding directory_action dirs
directory_action-Adds e ws = elim (Bool-cases e.is_dir) [
  | inl d ↦ elim (Bool-cases e.added) [
    | inl a ↦ rw (d, a) (adds (add_watch-Among e.path ws))
    | inr a ↦ rw (d, a) fails
  ]
  | inr d ↦ rw d (adds (same ws))
]

-- The first entry and the others.
Among-dirs :
    (e : Entry) (es : List Entry) (p : Bytes)
    → Among (dirs (e ∷ es)) p ↔ (Among (dirs (e ∷ [])) p ⊎ Among (dirs es) p)
unfolding dirs Among
Among-dirs e es p = elim (Bool-cases e.is_dir) [
  | inl d ↦ rw d (
    λ h. elim h [ inl x ↦ inl (inl x) | inr x ↦ inr x ],
    λ h. elim h [ inl (inl x) ↦ inl x | inl (inr x) ↦ absurd x | inr x ↦ inr x ],
  )
  | inr d ↦ rw d (λ h. inr h, λ h. elim h [ inl x ↦ absurd x | inr x ↦ x ])
]

then_Joins :
    (e : Entry) (es : List Entry) (ws ws' ws'' : List Bytes)
    → Joins ws (dirs (e ∷ [])) ws'
    → Joins ws' (dirs es) ws''
    → Joins ws (dirs (e ∷ es)) ws''
then_Joins e es ws ws' ws'' one others p =
    let (into1, back1) = one p in
    let (into2, back2) = others p in
    let (split, join) = Among-dirs e es p in
    (
      λ h. elim (into2 h) [
        | inl x ↦ elim (into1 x) [ inl y ↦ inl y | inr y ↦ inr (join (inl y)) ]
        | inr x ↦ inr (join (inr x))
      ],
      λ h. elim h [
        | inl x ↦ back2 (inl (back1 (inl x)))
        | inr x ↦ elim (split x) [ inl y ↦ back2 (inl (back1 (inr y))) | inr y ↦ back2 (inr y) ]
      ],
    )

then_Adds :
    (e : Entry) (es : List Entry) (ws ws' : List Bytes) {o : Option (List Bytes)}
    → Joins ws (dirs (e ∷ [])) ws'
    → Adds ws' (dirs es) o
    → Adds ws (dirs (e ∷ es)) o
then_Adds e es ws ws' one (adds {ws' = ws''} others) = adds (then_Joins e es ws ws' ws'' one others)
then_Adds e es ws ws' one fails = fails

bind-Adds :
    (e : Entry) (es : List Entry) (ws : List Bytes) {o : Option (List Bytes)}
    → Adds ws (dirs (e ∷ [])) o
    → ((ws' : List Bytes) → Adds ws' (dirs es) (visit es ws'))
    → Adds ws (dirs (e ∷ es)) (o >>= visit es)
bind-Adds e es ws (adds {ws'} one) others = then_Adds e es ws ws' one (others ws')
bind-Adds e es ws fails others = fails

visit-Adds : (es : List Entry) (ws : List Bytes) → Adds ws (dirs es) (visit es ws)
unfolding visit dirs
visit-Adds [] ws = adds (same ws)
visit-Adds (e ∷ es) ws = bind-Adds e es ws (directory_action-Adds e ws) (visit-Adds es)

nftw-Adds : (w : Walk) (ws : List Bytes) → Adds ws (dirs w.entries) (nftw w ws)
unfolding nftw
nftw-Adds w ws = walked (visit-Adds w.entries ws)
  where
    walked :
        {o : Option (List Bytes)}
        → Adds ws (dirs w.entries) o
        → Adds ws (dirs w.entries) (o >>= λ ws'. if w.walked then some ws' else none)
    walked fails = fails
    walked (adds h) = elim (Bool-cases w.walked) [ inl e ↦ rw e (adds h) | inr e ↦ rw e fails ]

Adds-Joins : {ws new ws' : List Bytes} → Adds ws new (some ws') → Joins ws new ws'
Adds-Joins (adds h) = h

-- After a walk that succeeds exactly the directories that it has found are watched and the paths that
-- were watched before.
pub nftw-Among :
    (w : Walk) (ws ws' : List Bytes) (p : Bytes)
    → nftw w ws ≡ some ws'
    → Among ws' p ↔ (Among ws p ⊎ Among (dirs w.entries) p)
nftw-Among w ws ws' p e = Adds-Joins (subst (Adds ws (dirs w.entries)) e (nftw-Adds w ws)) p
