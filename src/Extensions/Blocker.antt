-- ===== src/Extensions/Blocker.antt =====
-- crates/pb-extensions/src/blocker.rs: the extension surfaces that Strict mode makes dark, how each is
-- blocked, and the policy of a mode. `ExtensionApiSurface::ALL` is all_surfaces; a name is the list of
-- its bytes.
use dev_browse.Prelude.{ℕ, ◌≡◌, refl, Bool, true, List, [], ◌∷◌, ◌++◌, All, any, if◌then◌else◌}
use mathlib.Core.List.{Memᴰ}
use dev_browse.Prelude.Fallible.{drop}
use dev_browse.Prelude.Text.{bytes, same_text}
use dev_browse.Config.{Mode, standard, strict}
use dev_browse.Config.Loader.{starts_with}

pub data BlockMechanism : Type 0 where
  api_global_absent runtime_context_not_spawned manifest_entry_refused : BlockMechanism

pub data ExtensionApiSurface : Type 0 where
  web_extension_globals content_scripts background_contexts : ExtensionApiSurface
  declarative_net_request bootstrapped_manifest : ExtensionApiSurface

abbrev pub all_surfaces : List ExtensionApiSurface
all_surfaces =
    web_extension_globals ∷ content_scripts ∷ background_contexts ∷ declarative_net_request
    ∷ bootstrapped_manifest ∷ []

unfoldable pub js_surfaces : ExtensionApiSurface → List (List ℕ)
js_surfaces web_extension_globals = bytes "browser" ∷ bytes "chrome" ∷ []
js_surfaces content_scripts =
    bytes "manifest.content_scripts"
    ∷ bytes "browser.scripting.executeScript"
    ∷ bytes "browser.tabs.executeScript"
    ∷ bytes "chrome.scripting.executeScript"
    ∷ bytes "chrome.tabs.executeScript"
    ∷ []
js_surfaces background_contexts =
    bytes "manifest.background.page"
    ∷ bytes "manifest.background.scripts"
    ∷ bytes "manifest.background.service_worker"
    ∷ bytes "manifest.background.persistent"
    ∷ []
js_surfaces declarative_net_request =
    bytes "manifest.declarative_net_request"
    ∷ bytes "browser.declarativeNetRequest.updateDynamicRules"
    ∷ bytes "browser.declarativeNetRequest.updateSessionRules"
    ∷ bytes "chrome.declarativeNetRequest.updateDynamicRules"
    ∷ bytes "chrome.declarativeNetRequest.updateSessionRules"
    ∷ []
js_surfaces bootstrapped_manifest =
    bytes "manifest.bootstrap" ∷ bytes "manifest.legacy" ∷ bytes "manifest.type=bootstrap" ∷ []

unfoldable pub block_mechanism : ExtensionApiSurface → BlockMechanism
block_mechanism web_extension_globals = api_global_absent
block_mechanism content_scripts = runtime_context_not_spawned
block_mechanism background_contexts = runtime_context_not_spawned
block_mechanism declarative_net_request = manifest_entry_refused
block_mechanism bootstrapped_manifest = manifest_entry_refused

pub data BlockerPolicy : Type 0 where
  all_blocked standard_subject_to_allowlist : BlockerPolicy

unfoldable pub block_for_mode : Mode → BlockerPolicy
block_for_mode standard = standard_subject_to_allowlist
block_for_mode strict = all_blocked

unfoldable pub surfaces_blocked_for_mode : Mode → List ExtensionApiSurface
surfaces_blocked_for_mode standard = []
surfaces_blocked_for_mode strict = all_surfaces

-- In Strict mode, where the policy is to block everything, every surface is in the list of the blocked.
surfaces_blocked_for_mode-Mem :
    (mode : Mode) (surface : ExtensionApiSurface)
    → block_for_mode mode ≡ all_blocked
    → Memᴰ surface (surfaces_blocked_for_mode mode)
unfolding block_for_mode surfaces_blocked_for_mode
surfaces_blocked_for_mode-Mem standard surface e = cc
surfaces_blocked_for_mode-Mem strict web_extension_globals e = Memᴰ.head refl
surfaces_blocked_for_mode-Mem strict content_scripts e = Memᴰ.tail (Memᴰ.head refl)
surfaces_blocked_for_mode-Mem strict background_contexts e = Memᴰ.tail (Memᴰ.tail (Memᴰ.head refl))
surfaces_blocked_for_mode-Mem strict declarative_net_request e =
    Memᴰ.tail (Memᴰ.tail (Memᴰ.tail (Memᴰ.head refl)))
surfaces_blocked_for_mode-Mem strict bootstrapped_manifest e =
    Memᴰ.tail (Memᴰ.tail (Memᴰ.tail (Memᴰ.tail (Memᴰ.head refl))))

-- Whether the name under the other namespace is listed too, for a name under `browser.` or `chrome.`.
unfoldable has_pair : List (List ℕ) → List ℕ → Bool
has_pair names name =
    if starts_with (bytes "browser.") name
    then any (same_text (bytes "chrome." ++ drop 8 name)) names
    else if starts_with (bytes "chrome.") name
    then any (same_text (bytes "browser." ++ drop 7 name)) names
    else true

-- A call that a surface lists under one of the namespaces `browser` and `chrome` it lists under the
-- other too.
js_surfaces-paired :
    (surface : ExtensionApiSurface)
    → All (λ name. has_pair (js_surfaces surface) name ≡ true) (js_surfaces surface)
unfolding js_surfaces has_pair starts_with any same_text drop
js_surfaces-paired web_extension_globals = (refl, (refl, tt))
js_surfaces-paired content_scripts = (refl, (refl, (refl, (refl, (refl, tt)))))
js_surfaces-paired background_contexts = (refl, (refl, (refl, (refl, tt))))
js_surfaces-paired declarative_net_request = (refl, (refl, (refl, (refl, (refl, tt)))))
js_surfaces-paired bootstrapped_manifest = (refl, (refl, (refl, tt)))
