-- ===== src/Strings/Path.antt =====
-- `filepath.Clean` and `filepath.Join` for slash-separated paths.
use sysbox_libs.Prelude.{
  Bool, Bytes, List, [], codes, false, if◌then◌else◌, nat_beq, refl, true, ◌++◌, ◌==◌, ◌||◌, ◌∷◌,
  ◌≡◌, nat_comparable, bytes_comparable,
}
use sysbox_libs.Strings.Trim.{is_nil, trim_right}
use sysbox_libs.Strings.Split.{join, split}

-- One element of a path, where the elements so far are listed with the last one first.
climb : Bool → List Bytes → List Bytes
climb true [] = []
climb false [] = codes ".." ∷ []
climb rooted (top ∷ stack) = if top == codes ".." then codes ".." ∷ top ∷ stack else stack

unfoldable pub clean_elems : Bool → List Bytes → List Bytes → List Bytes
unfolding climb
clean_elems rooted stack [] = stack
clean_elems rooted stack (elem ∷ elems) =
    clean_elems rooted
      (if elem == [] || elem == codes "."
        then stack
        else (if elem == codes ".." then climb rooted stack else elem ∷ stack))
      elems

flip : List Bytes → List Bytes → List Bytes
flip [] out = out
flip (x ∷ xs) out = flip xs (x ∷ out)

rooted_path : List Bytes → Bytes
rooted_path stack = codes "/" ++ join (codes "/") stack

local_path : List Bytes → Bytes
local_path [] = codes "."
local_path (elem ∷ elems) = join (codes "/") (elem ∷ elems)

unfoldable pub is_abs : Bytes → Bool
is_abs [] = false
is_abs (c ∷ path) = nat_beq c b'/'

unfoldable pub clean : Bytes → Bytes
unfolding flip rooted_path local_path
clean path =
    if is_abs path
    then rooted_path (flip (clean_elems true [] (split b'/' path)) [])
    else local_path (flip (clean_elems false [] (split b'/' path)) [])

-- `filepath.Join`: empty elements at the front are dropped.
unfoldable pub join_path : List Bytes → Bytes
join_path [] = []
join_path ([] ∷ elems) = join_path elems
join_path ((c ∷ elem) ∷ elems) = clean (join (codes "/") ((c ∷ elem) ∷ elems))

last_elem : Bytes → List Bytes → Bytes
last_elem e [] = e
last_elem e (f ∷ es) = last_elem f es

-- `filepath.Base`: the last element, with the slashes at the end dropped.
unfoldable pub base : Bytes → Bytes
unfolding last_elem
base [] = codes "."
base (c ∷ path) =
    let elem = last_elem [] (split b'/' (trim_right (λ d. nat_beq d b'/') (c ∷ path))) in
    if is_nil elem then codes "/" else elem

-- What stands up to the last slash, with it.
unfoldable pub upto_slash : Bytes → Bytes
upto_slash [] = []
upto_slash (c ∷ path) =
    let rest = upto_slash path in
    if is_nil rest then (if nat_beq c b'/' then c ∷ [] else []) else c ∷ rest

-- `filepath.Dir`.
unfoldable pub dir_of : Bytes → Bytes
dir_of path = clean (upto_slash path)

base_test : base (codes "/usr/bin/sysbox-mgr//") ≡ codes "sysbox-mgr"
unfolding base trim_right split
base_test = refl

dir_test : dir_of (codes "/var/lib/x/merged") ≡ codes "/var/lib/x"
unfolding dir_of upto_slash clean is_abs clean_elems split join
dir_test = refl

root_dir_test : dir_of (codes "/x") ≡ codes "/"
unfolding dir_of upto_slash clean is_abs clean_elems split join
root_dir_test = refl

clean_test : clean (codes "/a/./b//../c/") ≡ codes "/a/c"
unfolding clean is_abs join clean_elems split
clean_test = refl

parents_test : clean (codes "../x/../../y") ≡ codes "../../y"
unfolding clean is_abs clean_elems split join
parents_test = refl

join_test : join_path (codes "" ∷ codes "/tmp/" ∷ codes "merged" ∷ []) ≡ codes "/tmp/merged"
unfolding join_path clean is_abs join clean_elems split
join_test = refl
