-- ===== src/Updater/Messages.antt =====
-- The messages of internal/updater/updater.go, in UTF-8.
use lynx_dns.Common.{ℕ, ◌++◌, ◌∷◌, [], Bytes, codes}
use lynx_dns.Rules.Ident.{decimal}

abbrev pub loading_message : Bytes
loading_message =
    228 ∷ 184 ∷ 139 ∷ 232 ∷ 189 ∷ 189 ∷ 229 ∷ 174 ∷ 140 ∷ 230 ∷ 136 ∷ 144 ∷ 239 ∷ 188 ∷ 140 ∷ 230
    ∷ 173 ∷ 163 ∷ 229 ∷ 156 ∷ 168 ∷ 229 ∷ 138 ∷ 160 ∷ 232 ∷ 189 ∷ 189 ∷ 230 ∷ 149 ∷ 176 ∷ 230 ∷ 141
    ∷ 174 ∷ 46 ∷ 46 ∷ 46 ∷ []

abbrev pub from_source : Bytes
from_source = 230 ∷ 173 ∷ 163 ∷ 229 ∷ 156 ∷ 168 ∷ 228 ∷ 187 ∷ 142 ∷ 230 ∷ 186 ∷ 144 ∷ 32 ∷ []

abbrev pub downloads : Bytes
downloads = 32 ∷ 228 ∷ 184 ∷ 139 ∷ 232 ∷ 189 ∷ 189 ∷ 46 ∷ 46 ∷ 46 ∷ []

abbrev pub source_word : Bytes
source_word = 230 ∷ 186 ∷ 144 ∷ 32 ∷ []

abbrev pub failed_word : Bytes
failed_word = 32 ∷ 229 ∷ 164 ∷ 177 ∷ 232 ∷ 180 ∷ 165 ∷ 58 ∷ 32 ∷ []

abbrev pub load_failed_word : Bytes
load_failed_word =
    229 ∷ 138 ∷ 160 ∷ 232 ∷ 189 ∷ 189 ∷ 229 ∷ 164 ∷ 177 ∷ 232 ∷ 180 ∷ 165 ∷ 58 ∷ 32 ∷ []

abbrev pub success_word : Bytes
success_word = 230 ∷ 136 ∷ 144 ∷ 229 ∷ 138 ∷ 159 ∷ 32 ∷ 40 ∷ 230 ∷ 186 ∷ 144 ∷ 32 ∷ []

abbrev pub completed_message : Bytes
completed_message = 230 ∷ 155 ∷ 180 ∷ 230 ∷ 150 ∷ 176 ∷ 229 ∷ 174 ∷ 140 ∷ 230 ∷ 136 ∷ 144 ∷ []

abbrev pub all_word : Bytes
all_word = 230 ∷ 137 ∷ 128 ∷ 230 ∷ 156 ∷ 137 ∷ 32 ∷ []

abbrev pub sources_failed : Bytes
sources_failed =
    32 ∷ 228 ∷ 184 ∷ 170 ∷ 230 ∷ 186 ∷ 144 ∷ 229 ∷ 157 ∷ 135 ∷ 229 ∷ 164 ∷ 177 ∷ 232 ∷ 180 ∷ 165
    ∷ []

-- %d/%d
unfoldable pub of_total : ℕ → ℕ → Bytes
unfolding decimal
of_total i total = decimal i ++ codes "/" ++ decimal total
