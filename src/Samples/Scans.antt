-- ===== src/Samples/Scans.antt =====
-- Dumps of bash environments: src/pkgcore/ebuild/filter_env.py.
use pkgcore.Prelude.{false, ◌&&◌, ◌≡◌, refl, [], ◌∷◌, ◌++◌, some, take, arith}
use pkgcore.Prelude.Text.{Text, codes, starts_with}
use pkgcore.Ebuild.FilterEnv.{
  is_function, is_envvar, behind_newline, closes, search_here, found, out_of_fuel,
}
use pkgcore.Ebuild.FilterEnv.Found.{Assignment, is_envvar_lem}
use pkgcore.Ebuild.FilterEnv.Here.{is_out, search_here-ends, search_here-empty}

abbrev assignment : Text
assignment = codes "  PV=1.2"

assignment-found : is_envvar 5 assignment ≡ some (7, 9, 10)
unfolding is_envvar
assignment-found = refl

is_envvar_lem_example : Assignment 5 assignment (7, 9, 10)
is_envvar_lem_example = is_envvar_lem 5 assignment (7, 9, 10) assignment-found

-- src_install () { einstall; }
function-found : is_function 0 (codes "function src_install () { einstall; }") ≡ some (9, 20, 25)
unfolding is_function starts_with
function-found = refl

-- the rest of a here document
abbrev document : Text
document = 10 ∷ codes "x EOF" ++ 10 ∷ codes "EOF" ++ 10 ∷ 0 ∷ []

document-read : search_here 12 (codes "EOF") document 0 ≡ found 10
unfolding search_here starts_with
document-read = refl

search_here-ends_example : is_out (search_here 13 (codes "EOF") document 0) ≡ false
search_here-ends_example =
    search_here-ends 13 b'E' (codes "OF") document 0 (omega arith) (omega arith)

-- cat <<'', from the newline on
abbrev quoted : Text
quoted = codes "cat <<''" ++ 10 ∷ codes "text" ++ 10 ∷ 10 ∷ []

quoted-goes_on : (closes 10 && behind_newline false (take 8 quoted)) ≡ false
unfolding behind_newline
quoted-goes_on = refl

search_here-empty_example : search_here 1000 [] quoted 8 ≡ out_of_fuel
search_here-empty_example =
    search_here-empty 1000 quoted 8 10 (codes "text" ++ 10 ∷ 10 ∷ []) refl quoted-goes_on
