-- ===== src/HttpDynamic/Tests.antt =====
-- Witnesses and tests of the locations.
use nginx_toolkit_module.Base.{
  ℕ, zero, suc, ◌<◌, ◌≤◌, ◌≡◌, refl, Bool, true, false, Option, none, some, List, [], ◌∷◌, arith,
  length, ◌==◌, if◌then◌else◌, ◌++◌,
}
use nginx_toolkit_module.Text.{Bytes, codes}
use nginx_toolkit_module.HttpDynamic.Location.{LocConf, entry_of, predeal_location}
use nginx_toolkit_module.HttpDynamic.Trees.{Found, declined, again, ok, find_static_location}
use nginx_toolkit_module.HttpDynamic.Location.Forms.{
  modifier_text, without_case, predeal_location-joined,
}
use nginx_toolkit_module.HttpDynamic.Trees.{
  create_list, cons, nil, Queue, join_from, cmp_locations, join_exact_locations, span, node_of,
  tree_at, create_tree, split,
}
use nginx_toolkit_module.HttpDynamic.Names.{FileNames, slash_first, ranked_cmp}
use nginx_toolkit_module.HttpDynamic.Trees.Build.{Middle, Built, create_tree-Built}
use nginx_toolkit_module.HttpDynamic.Trees.Join.{Joins, join_from-Joins}
use nginx_toolkit_module.HttpDynamic.Trees.Best.{Best}
use nginx_toolkit_module.HttpDynamic.Search.{
  Locations, Exec, matched, no_matched, Located, found, find_location, finish, init_locations,
  init_static_location_trees, split_regex, with_regexes, regex_loop,
}
use nginx_toolkit_module.HttpDynamic.Search.Sort.{insertion_sort, insertion, put}
use nginx_toolkit_module.HttpDynamic.Search.Finish.{entries, statics, regexes, unfinished}
use nginx_toolkit_module.HttpDynamic.Search.Request.{Chosen, find_location-Chosen}

instance abbrev nginx_names : FileNames
nginx_names = slash_first

-- the middle of a queue of this length
abbrev half : ℕ → ℕ
half zero = zero
half (suc zero) = zero
half (suc (suc n)) = suc (half n)

half-le : (n : ℕ) → half n ≤ n
half-le zero = omega arith
half-le (suc zero) = omega arith
half-le (suc (suc n)) = omega (arith, half-le n)

half-lt : (n : ℕ) → half (suc n) < suc n
half-lt zero = omega arith
half-lt (suc n) = omega (arith, half-le n)

half_zero : (n : ℕ) → half (suc n) ≡ 0 → n ≡ 0
half_zero zero h = refl
half_zero (suc n) h = absurd (omega (arith, h))

abbrev halves : Middle
halves = record { middle = half; middle-lt = half-lt; middle_zero = half_zero }

abbrev conf : Bytes → Option ℕ → Bool → Bool → ℕ → LocConf
conf n r e x c = record { name = n; regex = r; exact_match = e; noregex = x; loc_conf = c }

abbrev root : LocConf
root = conf (codes "/") none false false 1

abbrev exact_root : LocConf
exact_root = conf (codes "/") none true false 2

abbrev img : LocConf
img = conf (codes "/img/") none false true 3

abbrev img_big : LocConf
img_big = conf (codes "/img/big/") none false false 4

abbrev php : LocConf
php = conf (codes "php$") (some 7) false false 5

abbrev doc : LocConf
doc = conf (codes "/doc") none false false 6

abbrev site : List LocConf
site = php ∷ img_big ∷ root ∷ doc ∷ img ∷ exact_root ∷ []

-- an engine that finds names of eight bytes
abbrev eight : ℕ → Bytes → Exec
eight r u = if length u == 8 then matched else no_matched

find_location-Chosen_example :
    (l : Locations) × (finish insertion_sort.sort true half
        (λ n x. true)
        (unfinished (entries site))
      ≡ (true, l))
    × ((exec : ℕ → Bytes → Exec) (u : Bytes)
        → (rc : Found) × Best declined u (statics site) rc
          × Chosen exec u (regexes site) rc (find_location exec l u))
unfolding entry_of
find_location-Chosen_example =
    find_location-Chosen insertion_sort halves (λ n x. true) site (λ n x. refl)
      (refl, (refl, (refl, (refl, (refl, (refl, tt))))))
      (
        (omega arith, refl),
        (
          (omega arith, refl),
          ((omega arith, refl), ((omega arith, refl), ((omega arith, refl), tt))),
        ),
      )
      (
        (refl, (refl, (refl, (refl, tt)))),
        ((refl, (refl, (refl, tt))), ((refl, (refl, tt)), ((refl, tt), (tt, tt)))),
      )

-- "/" with "/img/" and the entry behind it in its list
abbrev root_queue : Queue
root_queue = cons (entry_of root) (cons (entry_of doc) nil (cons (entry_of img) nil nil)) nil

create_tree-Built_example : Built halves (λ n x. true) (λ n x. refl) 3 [] root_queue
unfolding entry_of
create_tree-Built_example =
    create_tree-Built halves (λ n x. true) (λ n x. refl) 3 [] root_queue (omega arith) (omega arith)
      (
        (codes "/", refl, omega arith, refl),
        λ e. absurd (cc e),
        (refl, (refl, tt)),
        (
          (codes "doc", refl, omega arith, refl),
          λ e. refl,
          tt,
          tt,
          (refl, tt),
          ((codes "img/", refl, omega arith, refl), λ e. refl, tt, tt, tt, tt),
        ),
        tt,
        tt,
      )

join_from-Joins_example :
    Joins
      (entry_of exact_root ∷ entry_of root ∷ entry_of doc ∷ [])
      (join_from (entry_of exact_root) (entry_of root ∷ entry_of doc ∷ []))
unfolding entry_of
join_from-Joins_example =
    join_from-Joins (entry_of exact_root) (entry_of root ∷ entry_of doc ∷ [])
      ((omega arith, refl), ((omega arith, refl), ((omega arith, refl), tt)))
      (refl, (refl, (refl, tt))) ((refl, (refl, tt)), ((refl, tt), (tt, tt)))
      ((refl, (refl, tt)), ((refl, tt), (tt, tt)))

-- a compiler that gives every pattern a number
abbrev compiler : Bytes → Bool → Option ℕ
compiler pattern caseless = some (if caseless then length pattern else 100)

predeal_location-joined_example :
    predeal_location compiler
      (codes "location" ∷ (modifier_text without_case ++ codes "php$") ∷ [])
      root
    ≡ predeal_location compiler
        (codes "location" ∷ modifier_text without_case ∷ codes "php$" ∷ [])
        root
predeal_location-joined_example =
    predeal_location-joined compiler without_case (codes "location") (codes "php$") root refl

served : List LocConf → Bytes → Located
served cs uri =
    find_location eight
      (finish insertion_sort.sort true half (λ n x. true) (unfinished (entries cs))).1 uri

-- the name itself, a prefix marked ^~, a regular expression before a prefix, a prefix, nothing
served-site :
    (served site (codes "/") ≡ found (ok exact_root))
    × (served site (codes "/img/b12") ≡ found (again img))
    × (served site (codes "/doc/abc") ≡ found (ok php))
    × (served site (codes "/img/big/1") ≡ found (again img_big))
    × (served site (codes "x") ≡ found declined)
unfolding served insertion_sort finish init_locations init_static_location_trees split_regex
    find_location with_regexes regex_loop insertion put cmp_locations join_exact_locations join_from
    span create_list node_of tree_at create_tree split find_static_location ranked_cmp entry_of
served-site = (refl, refl, refl, refl, refl)

abbrev many : ℕ → Bytes
many zero = []
many (suc n) = b'a' ∷ many n

abbrev long_name : LocConf
long_name = conf (many 256) none false false 8

-- a name of 256 bytes is taken for each request
served-long : served (long_name ∷ []) (codes "/b") ≡ found (again long_name)
unfolding served insertion_sort finish init_locations init_static_location_trees split_regex
    find_location with_regexes regex_loop insertion put cmp_locations join_exact_locations join_from
    span create_list node_of tree_at create_tree split find_static_location ranked_cmp entry_of
served-long = refl

abbrev dash : LocConf
dash = conf (codes "/a-b") none false false 9

abbrev plain_a : LocConf
plain_a = conf (codes "/a") none false false 10

abbrev slashed : LocConf
slashed = conf (codes "/a/b") none false false 11

-- the slash stands before the dash in the order, and the search goes the same way
served-slash :
    (served (dash ∷ plain_a ∷ slashed ∷ []) (codes "/a-b") ≡ found (again dash))
    × (served (dash ∷ plain_a ∷ slashed ∷ []) (codes "/a/b") ≡ found (again slashed))
    × (served (dash ∷ plain_a ∷ slashed ∷ []) (codes "/a.c") ≡ found (again plain_a))
unfolding served insertion_sort finish init_locations init_static_location_trees split_regex
    find_location with_regexes regex_loop insertion put cmp_locations join_exact_locations join_from
    span create_list node_of tree_at create_tree split find_static_location ranked_cmp entry_of
served-slash = (refl, refl, refl)
