-- ===== src/Web/Errors.antt =====
-- `json_error` of iib/web/errors.py: the status with which an exception is answered. It is
-- registered in iib/web/app.py for every HTTP exception, IIBError and ValidationError; Flask turns
-- any other exception into an InternalServerError first.
use iib.Common.{ℕ}
use iib.Exn.{
  Exn, validation_error, iib_error, forbidden, not_found, gone, type_error, attribute_error,
  key_error, value_error, of_worker,
}

unfoldable pub status_code : Exn → ℕ
status_code (validation_error reason) = 400
status_code (iib_error message) = 500
status_code (forbidden denial) = 403
status_code not_found = 404
status_code gone = 410
status_code type_error = 500
status_code attribute_error = 500
status_code key_error = 500
status_code value_error = 500
status_code (of_worker e) = 500
