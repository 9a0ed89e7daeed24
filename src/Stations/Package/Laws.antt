-- ===== src/Stations/Package/Laws.antt =====
-- A package is saved only after it has been verified, and is saved then.
use g_manager.Common.{
  ℕ, Bool, true, false, not, Option, none, some, List, ◌≡◌, refl, ap, subst, arith, impossible,
  ◌==◌, codes, begins, lower, same_text, same_text_sound, map, each_branch,
}
use g_manager.Stations.Package.{
  GamingClientPackage, Url, Web, Configuration, configured, refused, package_configuration, Answer,
  Download, aborted, saved, hex, zip_magic, verified, from_own_server, forwarded, fetched,
  download_client_package, is_foreign, zip_content_type,
}

-- The bytes begin like an archive and have the published digest, and nobody has given up.
abbrev pub IsVerified : Web → GamingClientPackage → (is_aborted : Bool) → List ℕ → Type 0
IsVerified w p is_aborted bytes =
    (begins zip_magic bytes ≡ true)
    × (hex (w.digest bytes) ≡ map lower (codes p.sha256))
    × (is_aborted ≡ false)

-- A download that is saved.
abbrev Saves : Download → List ℕ → Type 0 → Type 0
Saves d bytes Q = d ≡ saved bytes → Q

same_bytes : (a b : List ℕ) → saved a ≡ saved b → a ≡ b
same_bytes a b e = ground (arith, e)

confirmed : (b : Bool) → not b ≡ false → b ≡ true
confirmed b h = ground arith

verified-IsVerified :
    (w : Web) (p : GamingClientPackage) (is_aborted : Bool) (given bytes : List ℕ)
    → verified w p is_aborted given ≡ saved bytes
    → (given ≡ bytes) × IsVerified w p is_aborted given
unfolding verified
verified-IsVerified w p is_aborted given bytes =
    let Q = (given ≡ bytes) × IsVerified w p is_aborted given in
    each_branch (λ d. Saves d bytes Q) (not (begins zip_magic given)) _ _ (λ b e. ground (arith, e))
      (λ magic.
        each_branch (λ d. Saves d bytes Q)
          (not (same_text (hex (w.digest given)) (map lower (codes p.sha256)))) _ _
          (λ b e. ground (arith, e))
          (λ same.
            each_branch (λ d. Saves d bytes Q) is_aborted aborted (saved given)
              (λ b e. ground (arith, e))
              (λ on e. (
                same_bytes given bytes e,
                (confirmed _ magic, same_text_sound _ _ (confirmed _ same), on),
              ))))

-- Where the bytes come from.
abbrev pub IsReceived : Web → Url → Option Answer → Option (List ℕ) → List ℕ → Type 0
IsReceived w url own foreign bytes =
    (is_foreign w url ≡ true → foreign ≡ some bytes)
    × (is_foreign w url ≡ false
        → (a : Answer) × (own ≡ some a)
          × (a.body ≡ bytes)
          × (zip_content_type a.content_type ≡ true))

forwarded-saved :
    (w : Web) (p : GamingClientPackage) (is_aborted : Bool) (foreign : Option (List ℕ))
    (bytes : List ℕ)
    → forwarded w p is_aborted foreign ≡ saved bytes
    → (foreign ≡ some bytes) × IsVerified w p is_aborted bytes
unfolding forwarded
forwarded-saved w p is_aborted none bytes e = ground (arith, e)
forwarded-saved w p is_aborted (some given) bytes e =
    let (same, ok) = verified-IsVerified w p is_aborted given bytes e in
    (ap (λ b. some b) same, subst (IsVerified w p is_aborted) same ok)

from_own_server-saved :
    (w : Web) (p : GamingClientPackage) (is_aborted : Bool) (own : Option Answer) (bytes : List ℕ)
    → from_own_server w p is_aborted own ≡ saved bytes
    → ((a : Answer) × (own ≡ some a) × (a.body ≡ bytes) × (zip_content_type a.content_type ≡ true))
      × IsVerified w p is_aborted bytes
unfolding from_own_server
from_own_server-saved w p is_aborted none bytes = λ e. ground (arith, e)
from_own_server-saved w p is_aborted (some a) bytes =
    let Q =
      ((x : Answer) × (some a ≡ some x)
        × (x.body ≡ bytes)
        × (zip_content_type x.content_type ≡ true))
      × IsVerified w p is_aborted bytes in
    each_branch (λ d. Saves d bytes Q) (a.status == 404) _ _ (λ b e. ground (arith, e))
      (λ found.
        each_branch (λ d. Saves d bytes Q) (not a.ok) _ _ (λ b e. ground (arith, e))
          (λ ok.
            each_branch (λ d. Saves d bytes Q) (not (zip_content_type a.content_type)) _ _
              (λ b e. ground (arith, e))
              (λ zip e.
                let (same, is_ok) = verified-IsVerified w p is_aborted a.body bytes e in
                ((a, refl, same, confirmed _ zip), subst (IsVerified w p is_aborted) same is_ok))))

fetched-saved :
    (w : Web) (p : GamingClientPackage) (has_subtle is_aborted : Bool) (own : Option Answer)
    (foreign : Option (List ℕ)) (c : Configuration) (bytes : List ℕ)
    → fetched w p has_subtle is_aborted own foreign c ≡ saved bytes
    → (url : Url) × (c ≡ configured url)
      × IsVerified w p is_aborted bytes
      × IsReceived w url own foreign bytes
unfolding fetched
fetched-saved w p has_subtle is_aborted own foreign (refused message) bytes = λ e. ground (arith, e)
fetched-saved w p has_subtle is_aborted own foreign (configured url) bytes =
    let Q =
      (x : Url) × (configured url ≡ configured x)
      × IsVerified w p is_aborted bytes
      × IsReceived w x own foreign bytes in
    each_branch (λ d. Saves d bytes Q) (not has_subtle) _ _ (λ b e. ground (arith, e))
      (λ subtle.
        each_branch (λ d. Saves d bytes Q) (is_foreign w url) _ _
          (λ there e.
            let (got, ok) = forwarded-saved w p is_aborted foreign bytes e in
            (url, refl, ok, ((λ h. got), (λ h. impossible there h))))
          (λ here e.
            let (got, ok) = from_own_server-saved w p is_aborted own bytes e in
            (url, refl, ok, ((λ h. impossible h here), (λ h. got)))))

-- A package is saved only if its configuration gives an address, its bytes begin like an archive and have
-- the published digest, nobody has given up, and they are the bytes that the backend forwards from another
-- server, or those that the own server answers as an archive.
pub download_client_package_saves :
    (w : Web) (p : GamingClientPackage) (has_subtle is_aborted : Bool) (own : Option Answer)
    (foreign : Option (List ℕ)) (bytes : List ℕ)
    → download_client_package w p has_subtle is_aborted own foreign ≡ saved bytes
    → (url : Url) × (package_configuration w (some p) ≡ configured url)
      × IsVerified w p is_aborted bytes
      × IsReceived w url own foreign bytes
unfolding download_client_package
download_client_package_saves w p has_subtle is_aborted own foreign bytes e =
    fetched-saved w p has_subtle is_aborted own foreign (package_configuration w (some p)) bytes e
