-- ===== src/Admin/Users/Page/Dialog.antt =====
-- AdminUsersPage.tsx: the dialog that confirms the removal of a user.
use flash_pay.Prelude.{text, Bool, true, false, Option, none, some, [], ◌∷◌, ◌++◌, if◌then◌else◌}
use flash_pay.Prelude.Html.{string, flag, Html, element, say, classed}
use flash_pay.Admin.{AdminUser}
use flash_pay.Admin.Users.{PendingAction, deletion}

abbrev pub is_deletion : Option PendingAction → Bool
is_deletion (some (deletion _)) = true
is_deletion _ = false

unfoldable pub delete_dialog : Bool → Option AdminUser → Html
delete_dialog is_deleting none = []
delete_dialog is_deleting (some user) =
    element (text "div")
      ((text "class", string (text "admin-users-modal-backdrop"))
        ∷ (text "role", string (text "presentation"))
        ∷ [])
      (element (text "div")
        ((text "class", string (text "admin-users-modal"))
          ∷ (text "role", string (text "dialog"))
          ∷ (text "aria-modal", string (text "true"))
          ∷ (text "aria-labelledby", string (text "delete-user-title"))
          ∷ [])
        (element (text "p") (classed (text "section-kicker")) (say (text "Confirmacao"))
          ++ (element (text "h2") ((text "id", string (text "delete-user-title")) ∷ [])
                (say (text "Remover usuario"))
              ++ (element (text "p") (classed (text "lead compact-lead")) (
                    say (text "Voce vai remover ")
                    ++ (element (text "strong") [] (say user.name)
                        ++ (say (text " (")
                            ++ (say user.email
                                ++ (say (text ").")
                                    ++ (element (text "br") [] []
                                        ++ say (text "Esta acao nao pode ser desfeita.")))))))
                  ++ element (text "div") (classed (text "admin-users-modal-actions")) (
                      element (text "button")
                        ((text "class", string (text "ghost-button"))
                          ∷ (text "type", string (text "button"))
                          ∷ (text "disabled", flag is_deleting)
                          ∷ [])
                        (say (text "Cancelar"))
                      ++ element (text "button")
                          ((text "class", string (text "primary-button admin-users-confirm-button"))
                            ∷ (text "type", string (text "button"))
                            ∷ (text "disabled", flag is_deleting)
                            ∷ [])
                          (say (
                            if is_deleting
                            then text "Removendo..."
                            else text "Confirmar remocao")))))))
