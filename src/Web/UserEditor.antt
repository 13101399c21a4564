-- ===== src/Web/UserEditor.antt =====
-- web/static/js/openfsd/usereditor.js: the password meter and the forms of the user editor.
pub mod Password
pub mod Forms
