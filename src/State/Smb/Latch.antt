-- ===== src/State/Smb/Latch.antt =====
-- After a refusal the SMB connections are not queried again.
use aiotruenas.Base.{Bool, true, false, ◌≡◌, refl, ap, ◌∙◌, List, [], ◌∷◌, string_eq, if◌then◌else◌}
use aiotruenas.Base.Assoc.{lookup}
use aiotruenas.Value.{null}
use aiotruenas.Errors.Exceptions.{ClientError}
use aiotruenas.Rpc.{returned, failed}
use aiotruenas.Client.Options.{enabled_reply}
use aiotruenas.State.Cache.{Cache, Server, Ended, refreshed, endpoint}
use aiotruenas.State.Fallback.{flag_failing, fallback_endpoint, stale_endpoints}
use aiotruenas.State.Fallback.Log.{is_failing-flag_failing}
use aiotruenas.State.Fallback.Stale.{Among, is_failing-Among}
use aiotruenas.State.Smb.{is_smb_denied, smb_failed, query_smb, with_smb, get_smb}

-- Refreshes one after the other, each with what the server then answers.
abbrev pub refresh_all : List Server → Cache → Cache
refresh_all [] s = s
refresh_all (V ∷ rest) s = refresh_all rest (get_smb V s).1

abbrev query : Server → Cache → Ended × Cache
query V s =
    query_smb (enabled_reply V.set_options) (λ v u. query_smb (V.call "smb.status") with_smb u) s

get_smb-latch :
    (V : Server) (s : Cache) (b : Bool)
    → s.smb_denied ≡ b
    → get_smb V s ≡ (if b then (refreshed, s) else query V s)
unfolding get_smb
get_smb-latch V s b latch = ap (λ x. if x then (refreshed, s) else query V s) latch

latched : (later : List Server) (s : Cache) → s.smb_denied ≡ true → refresh_all later s ≡ s
latched [] s denied = refl
latched (V ∷ rest) s denied =
    ap (λ r. refresh_all rest r.1) (get_smb-latch V s true denied) ∙ latched rest s denied

-- The option of private methods raises nothing, and the server refuses the query.
abbrev pub IsRefused : Server → ClientError → Type 0
IsRefused V e = (enabled_reply V.set_options ≡ returned null) × (V.call "smb.status" ≡ failed e)

abbrev after_refusal : Cache → Cache
after_refusal s = flag_failing "smb_status" (record s { smb_denied = true })

smb_failed-denied :
    (e : ClientError) (s : Cache)
    → is_smb_denied e ≡ true
    → smb_failed e s ≡ (refreshed, after_refusal s)
unfolding smb_failed
smb_failed-denied e s denied = rw denied

get_smb-refused :
    (V : Server) (s : Cache) (e : ClientError)
    → s.smb_denied ≡ false
    → is_smb_denied e ≡ true
    → IsRefused V e
    → get_smb V s ≡ (refreshed, after_refusal s)
unfolding query_smb
get_smb-refused V s e asked denied (first, second) =
    get_smb-latch V s false asked ∙ rw first (rw second (smb_failed-denied e s denied))

after_refusal-Among : (s : Cache) → Among "smb" (stale_endpoints (after_refusal s))
unfolding fallback_endpoint lookup string_eq
after_refusal-Among s =
    is_failing-Among "smb_status" "smb" (after_refusal s) refl
      (is_failing-flag_failing "smb_status" "smb_status" (record s { smb_denied = true }))

-- If the option of private methods raises nothing, accepted or rejected, and the server refuses the
-- SMB query with EACCES: the refresh returns, and whatever the server would answer in later refreshes,
-- the count stays as it was cached and the endpoint is stale.
pub get_smb-refused_forever :
    (V : Server) (later : List Server) (s : Cache) (e : ClientError)
    → s.smb_denied ≡ false
    → is_smb_denied e ≡ true
    → IsRefused V e
    → ((get_smb V s).0 ≡ refreshed)
      × (endpoint "smb" (refresh_all later (get_smb V s).1) ≡ endpoint "smb" s)
      × Among "smb" (stale_endpoints (refresh_all later (get_smb V s).1))
unfolding endpoint flag_failing
get_smb-refused_forever V later s e asked denied refusal =
    rw (get_smb-refused V s e asked denied refusal)
      (rw (latched later (after_refusal s) refl) (refl, refl, after_refusal-Among s))
