-- ===== src/I18n.antt =====
-- i18n.rs: the texts of the window, in Russian and English, and which are used.
use mac_os_sstp_client.Prelude.{Option, none, some, Bool, Bytes}
use mac_os_sstp_client.Prelude.Text.{Str, codes}
use mac_os_sstp_client.Host.{Lang, ru, en, detect}

pub record Strings : Type 0 where
  pub connect : Str
  pub cancel : Str
  pub disconnect : Str
  pub not_connected : Str
  pub connecting : Str
  pub connected : Str
  pub settings : Str
  pub settings_hover : Str
  pub back : Str
  pub servers : Str
  pub add_server : Str
  pub remove_server_hover : Str
  pub profile_name_label : Str
  pub server_label : Str
  pub username_label : Str
  pub password_label : Str
  pub save_password_in_keychain : Str
  pub save_settings : Str
  pub connection_log : Str
  pub fill_server_username_password : Str
  pub default_server_name_prefix : Str
  pub tray_status_disconnected : Str
  pub tray_status_connecting : Str
  pub tray_status_connected : Str
  pub tray_connect : Str
  pub tray_disconnect : Str
  pub tray_show_window : Str
  pub tray_quit : Str
  pub notif_app_name : Str
  pub notif_restored_after_failure : Str
  pub notif_restore_failed : Str

unfoldable pub russian : Strings
russian = record {
  connect = codes "Подключиться";
  cancel = codes "Отменить";
  disconnect = codes "Отключиться";
  not_connected = codes "Не подключено";
  connecting = codes "Подключение…";
  connected = codes "Подключено";
  settings = codes "Настройки";
  settings_hover = codes "Настройки";
  back = codes "Назад";
  servers = codes "Серверы";
  add_server = codes "+ Добавить сервер";
  remove_server_hover = codes "Удалить сервер";
  profile_name_label = codes "Имя профиля:";
  server_label = codes "Сервер:";
  username_label = codes "Логин:";
  password_label = codes "Пароль:";
  save_password_in_keychain = codes "Сохранить пароль в Keychain";
  save_settings = codes "Сохранить настройки";
  connection_log = codes "Лог подключения";
  fill_server_username_password = codes "Заполните сервер, логин и пароль";
  default_server_name_prefix = codes "Сервер";
  tray_status_disconnected = codes "● Отключено";
  tray_status_connecting = codes "● Подключение…";
  tray_status_connected = codes "● Подключено";
  tray_connect = codes "Подключиться";
  tray_disconnect = codes "Отключиться";
  tray_show_window = codes "Показать окно";
  tray_quit = codes "Выход";
  notif_app_name = codes "SSTP GUI";
  notif_restored_after_failure = codes "Восстановлен доступ в интернет после сбоя VPN";
  notif_restore_failed = codes "Не удалось восстановить интернет автоматически, см. лог";
}

unfoldable pub english : Strings
english = record {
  connect = codes "Connect";
  cancel = codes "Cancel";
  disconnect = codes "Disconnect";
  not_connected = codes "Not connected";
  connecting = codes "Connecting…";
  connected = codes "Connected";
  settings = codes "Settings";
  settings_hover = codes "Settings";
  back = codes "Back";
  servers = codes "Servers";
  add_server = codes "+ Add server";
  remove_server_hover = codes "Remove server";
  profile_name_label = codes "Profile name:";
  server_label = codes "Server:";
  username_label = codes "Username:";
  password_label = codes "Password:";
  save_password_in_keychain = codes "Save password in Keychain";
  save_settings = codes "Save settings";
  connection_log = codes "Connection log";
  fill_server_username_password = codes "Fill in the server, username and password";
  default_server_name_prefix = codes "Server";
  tray_status_disconnected = codes "● Disconnected";
  tray_status_connecting = codes "● Connecting…";
  tray_status_connected = codes "● Connected";
  tray_connect = codes "Connect";
  tray_disconnect = codes "Disconnect";
  tray_show_window = codes "Show Window";
  tray_quit = codes "Quit";
  notif_app_name = codes "SSTP GUI";
  notif_restored_after_failure = codes "Internet access restored after a VPN failure";
  notif_restore_failed = codes "Could not restore internet access automatically, see the log";
}

unfoldable pub strings : Lang → Strings
unfolding russian english
strings ru = russian
strings en = english

-- `CURRENT.get_or_init(Lang::detect)`: the language that is pinned, if there is one, or else the one
-- that is detected now, with what is pinned from then on.
unfoldable pub current : Option Lang → Option (Bool × Bytes) → Lang × Option Lang
current (some lang) locale = (lang, some lang)
current none locale = (detect locale, some (detect locale))

unfoldable pub t : Option Lang → Option (Bool × Bytes) → Strings × Option Lang
unfolding current strings
t pinned locale = let (lang, pinned') = current pinned locale in (strings lang, pinned')
