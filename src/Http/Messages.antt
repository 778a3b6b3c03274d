-- ===== src/Http/Messages.antt =====
-- `writeError`, `zhUserMessage` and `containsCJK` of internal/api/server.go: the texts of the errors
-- that a user gets.
use Prim.Native.Char.{code}
use text.Mathlib.TextLemmas.{cons-append}
use Prim.Native.String.{◌++◌}
use woms.Base.{
  ℕ, ◌≡◌, refl, Bool, true, false, ◌&&◌, ◌||◌, [], ◌∷◌, Option, none, some, String, leb, str_eq,
  if◌then◌else◌, any_of, Bool-cases, inl, inr,
}
use woms.Base.Maps.{Map, lookup}
use woms.Base.Text.{trim_space, strip_prefix, codes}

abbrev is_cjk : ℕ → Bool
is_cjk c = leb 0x4E00 c && leb c 0x9FFF || leb 0x3400 c && leb c 0x4DBF

unfoldable pub contains_cjk : String → Bool
unfolding any_of
contains_cjk value = any_of is_cjk (codes value)

abbrev pub translations : Map String
translations =
    ("route not found", "找不到 API 路由。")
    ∷ ("method not allowed", "不支援此 HTTP 方法。")
    ∷ ("invalid credentials", "帳號或密碼錯誤。")
    ∷ ("auth session store unavailable", "登入狀態服務暫時無法使用，請稍後再試。")
    ∷ ("unauthorized", "請先登入後再操作。")
    ∷ ("only sales can create orders", "只有業務可以建立訂單。")
    ∷ ("only sales can confirm preview orders", "只有業務可以確認訂單預覽。")
    ∷ ("only schedulers can reject orders", "只有排程工程師可以駁回訂單。")
    ∷ ("only sales can resubmit pending or rejected orders", "只有業務可以重新送出待排程或需業務處理的訂單。")
    ∷ ("only admin can manage accounts", "只有管理員可以管理帳號。")
    ∷ ("only admin or schedulers can create demo conflict orders", "只有管理員或排程工程師可以建立衝突展示訂單。")
    ∷ ("only schedulers can create schedule jobs", "只有排程工程師可以建立排程任務。")
    ∷ ("schedule job not found", "找不到排程任務。")
    ∷ ("only schedulers can confirm production", "只有排程工程師可以回報生產。")
    ∷ ("only schedulers can start production", "只有排程工程師可以開始生產。")
    ∷ ("order not found", "找不到訂單。")
    ∷ ("cannot update another production line", "不能更新其他產線的訂單。")
    ∷ ("sales can update only their own orders", "業務只能更新自己的訂單。")
    ∷ ("role cannot update orders", "此角色不能更新訂單。")
    ∷ ("only pending or rejected orders can change order details", "只有待排程或需業務處理的訂單可以變更內容。")
    ∷ ("note cannot be updated after order creation", "備註建立後不能修改。")
    ∷ ("dueDate must use YYYY-MM-DD", "交期格式必須是 YYYY-MM-DD。")
    ∷ ("quantity must be between 25 and 2500", "數量必須介於 25 到 2500。")
    ∷ ("production line does not exist", "產線不存在。")
    ∷ ("priority must be low or high", "優先級必須是 low 或 high。")
    ∷ ("orderIds is required", "請至少選取一張訂單。")
    ∷ ("rejection reason is required", "請填寫駁回理由。")
    ∷ ("rejection reason must be 240 characters or fewer", "駁回理由最多 240 個字。")
    ∷ ("cannot reject another production line", "不能駁回其他產線的訂單。")
    ∷ ("only pending orders can be rejected", "只有待排程訂單可以被駁回。")
    ∷ ("sales can resubmit only their own orders", "只能重新送出自己的訂單。")
    ∷ ("only pending or rejected orders can be resubmitted", "只有待排程或需業務處理的訂單可以重新送出。")
    ∷ ("sales can cancel only their own orders", "業務只能取消自己的訂單。")
    ∷ ("sales can cancel only pending or rejected orders", "業務只能取消待排程或需業務處理的訂單。")
    ∷ ("cannot cancel another production line", "不能取消其他產線的訂單。")
    ∷ ("role cannot cancel orders", "此角色不能取消訂單。")
    ∷ ("cannot cancel in-progress or completed orders", "不能取消生產中或已完成的訂單。")
    ∷ ("user not found", "找不到使用者。")
    ∷ ("username is required", "請填寫帳號。")
    ∷ ("username already exists", "帳號已存在。")
    ∷ ("username must be 40 characters or fewer", "帳號最多 40 個字。")
    ∷ (
      "username can contain only letters, numbers, dash, underscore, or dot",
      "帳號只能包含英文字母、數字、連字號、底線或句點。",
    )
    ∷ ("password is required", "請填寫密碼。")
    ∷ ("role must be admin, sales, or scheduler", "角色必須是 admin、sales 或 scheduler。")
    ∷ ("scheduler lineId must be A, B, C, or D", "排程工程師的產線必須存在。")
    ∷ ("previewId is required before creating a schedule job", "建立排程任務前必須先完成試排。")
    ∷ ("preview result expired or not found", "試排結果已過期或不存在。")
    ∷ ("preview result belongs to another user", "試排結果屬於其他使用者。")
    ∷ ("schedule request changed after preview", "排程請求與試排內容不同，請重新試排。")
    ∷ ("cannot schedule another production line", "不能排程其他產線。")
    ∷ ("lineId is required", "請選擇產線。")
    ∷ ("cannot access another production line", "不能存取其他產線。")
    ∷ ("month must use YYYY-MM", "月份格式必須是 YYYY-MM。")
    ∷ ("only admin or schedulers can read schedule history", "只有管理員或排程工程師可以讀取排程紀錄。")
    ∷ ("only scheduled orders can start production", "只有已排程訂單可以開始生產。")
    ∷ ("scheduled order has no allocation", "已排程訂單沒有分配紀錄。")
    ∷ ("cannot start another production line", "不能開始其他產線的生產。")
    ∷ ("cannot confirm another production line", "不能回報其他產線的生產。")
    ∷ ("only in-progress orders can be confirmed", "只有生產中訂單可以回報生產。")
    ∷ ("producedQuantity must be greater than zero", "完成片數必須大於 0。")
    ∷ ("productionDate must use YYYY-MM-DD", "生產日期格式必須是 YYYY-MM-DD。")
    ∷ ("scheduled allocation not found for productionDate", "找不到該生產日期的排程。")
    ∷ ("productionDate has already been confirmed", "該生產日期已經回報過。")
    ∷ ("producedQuantity cannot exceed scheduled allocation quantity", "完成片數不能超過本日排程量。")
    ∷ ("manual force requires a reason", "人工介入必須填寫原因。")
    ∷ ("startDate must use YYYY-MM-DD", "開始日期格式必須是 YYYY-MM-DD。")
    ∷ ("currentDate must use YYYY-MM-DD", "目前日期格式必須是 YYYY-MM-DD。")
    ∷ ("only sales can preview draft orders", "只有業務可以試排草稿訂單。")
    ∷ ("draft order line must match preview line", "草稿訂單產線必須符合試排產線。")
    ∷ ("draft previews cannot include resolution orders", "草稿試排不能包含解法訂單。")
    ∷ ("resolution order not found", "找不到解法訂單。")
    ∷ ("resolution order line must match preview line", "解法訂單產線必須符合試排產線。")
    ∷ (
      "resolution orders must be low-priority scheduled orders without locked or completed allocations",
      "解法訂單必須是低優先級、已排程、且沒有鎖定或已完成分配的訂單。",
    )
    ∷ ("preview does not contain a draft order", "試排結果不包含草稿訂單。")
    ∷ ("draft defer cannot include deferred pending orders", "取消目前草稿訂單時不能同時改送其他待排程訂單。")
    ∷ ("draft can be deferred only when preview has conflicts", "只有發生衝突的草稿訂單可以改送需業務處理。")
    ∷ ("cannot create demo orders for another production line", "不能為其他產線建立展示訂單。")
    ∷ ("count must be between 5 and 20", "數量必須介於 5 到 20。")
    ∷ ("customer is required and quantity must be between 25 and 2500", "請填寫客戶，且數量必須介於 25 到 2500。")
    ∷ ("note must be 120 characters or fewer", "備註最多 120 個字。")
    ∷ ("schedule conflicts require review", "排程結果仍有衝突，請重新檢查後再送出。")
    ∷ ("invalid schedule request", "排程請求無效。")
    ∷ []

abbrev pub try_later : String
try_later = "操作失敗，請稍後再試。"

-- `translations[message]`
abbrev translated_or : Option String → String
translated_or none = try_later
translated_or (some translated) = translated

abbrev not_found_or : Option String → String → String
not_found_or (some id) message = "找不到訂單：" ++ id
not_found_or none message = translated_or (lookup message translations)

abbrev unknown_field_or : Option String → String → String
unknown_field_or (some field) message = "請求包含不支援的欄位。"
unknown_field_or none message = not_found_or (strip_prefix "order not found: " message) message

unfoldable pub user_message : String → String
unfolding contains_cjk strip_prefix lookup
user_message message =
    if str_eq message ""
    then try_later
    else if contains_cjk message
    then message
    else unknown_field_or (strip_prefix "json: unknown field " message) message

unfoldable pub zh_user_message : String → String
unfolding trim_space user_message
zh_user_message message = user_message (trim_space message)

abbrev all_contain_cjk : Map String → Bool
all_contain_cjk [] = true
all_contain_cjk ((message, translated) ∷ rest) = contains_cjk translated && all_contain_cjk rest

false≢true : false ≡ true → ⊥
false≢true h = cc

both : (a b : Bool) → a && b ≡ true → (a ≡ true) × (b ≡ true)
both true b h = (refl, h)
both false b h = absurd (false≢true h)

try_later-cjk : contains_cjk try_later ≡ true
unfolding contains_cjk
try_later-cjk = refl

contains_cjk-lookup :
    (message : String) (entries : Map String)
    → all_contain_cjk entries ≡ true
    → contains_cjk (translated_or (lookup message entries)) ≡ true
unfolding lookup
contains_cjk-lookup message [] h = try_later-cjk
contains_cjk-lookup message ((name, translated) ∷ rest) h =
    let (here, later) = both (contains_cjk translated) (all_contain_cjk rest) h in
    elim (Bool-cases (str_eq name message)) [
      | inl same ↦ rw (same) here
      | inr other ↦ rw (other) (contains_cjk-lookup message rest later)
    ]

translations-cjk : all_contain_cjk translations ≡ true
unfolding contains_cjk
translations-cjk = refl

or_later : (here a b : Bool) → (a ≡ true → b ≡ true) → here || a ≡ true → here || b ≡ true
or_later true a b f h = refl
or_later false a b f h = f h

contains_cjk-append :
    (text rest : String) → contains_cjk text ≡ true → contains_cjk (text ++ rest) ≡ true
unfolding contains_cjk any_of
contains_cjk-append String.[] rest h = absurd (false≢true h)
contains_cjk-append (String.◌∷◌ first text) rest h = rw (cons-append first text rest) (
    or_later (is_cjk (code first)) (contains_cjk text) (contains_cjk (text ++ rest))
      (contains_cjk-append text rest) h)

contains_cjk-not_found_or :
    (found : Option String) (message : String) → contains_cjk (not_found_or found message) ≡ true
unfolding contains_cjk
contains_cjk-not_found_or (some id) message = contains_cjk-append "找不到訂單：" id refl
contains_cjk-not_found_or none message = contains_cjk-lookup message translations translations-cjk

contains_cjk-unknown_field_or :
    (found : Option String) (message : String)
    → contains_cjk (unknown_field_or found message) ≡ true
unfolding contains_cjk
contains_cjk-unknown_field_or (some field) message = refl
contains_cjk-unknown_field_or none message =
    contains_cjk-not_found_or (strip_prefix "order not found: " message) message

contains_cjk-user_message : (message : String) → contains_cjk (user_message message) ≡ true
unfolding user_message
contains_cjk-user_message message = elim (Bool-cases (str_eq message "")) [
  | inl empty ↦ rw (user_message, empty) try_later-cjk
  | inr other ↦ elim (Bool-cases (contains_cjk message)) [
    | inl cjk ↦ rw (user_message, other, cjk) cjk
    | inr plain ↦
        rw (user_message, other, plain)
          (contains_cjk-unknown_field_or (strip_prefix "json: unknown field " message) message)
  ]
]

-- Whatever the error, the text that a user gets has a Chinese character in it.
pub contains_cjk-zh_user_message :
    (message : String) → contains_cjk (zh_user_message message) ≡ true
unfolding zh_user_message
contains_cjk-zh_user_message message = contains_cjk-user_message (trim_space message)
