-- ===== src/Routing/Keywords.antt =====
-- The keyword sets of app/services/rule_router.py, in the order of the source. The order of a
-- frozenset is unspecified; it shows only in the order of the keywords that are reported.
use ctrlf_ai.Prelude.{String, List, [], ◌∷◌}

unfoldable pub policy_keywords : List String
policy_keywords =
    "규정" ∷ "사규" ∷ "정책" ∷ "규칙" ∷ "지침" ∷ "매뉴얼" ∷ "가이드" ∷ "절차" ∷ "프로세스" ∷ "승인" ∷ "결재" ∷ "보안정책"
    ∷ "개인정보보호" ∷ "허용" ∷ "금지" ∷ "위반" ∷ "제재" ∷ "징계" ∷ "정보보호" ∷ "보안규정" ∷ "내부규정" ∷ "근무시간" ∷ "휴게시간"
    ∷ "지각" ∷ "결근" ∷ "무단결근" ∷ "조퇴" ∷ "외출" ∷ "재택근무" ∷ "연차" ∷ "휴가" ∷ "반차" ∷ "병가" ∷ "경조사" ∷ "출산휴가"
    ∷ "육아휴직" ∷ "연장근로" ∷ "야근" ∷ "당직" ∷ "인사평가" ∷ "승진" ∷ "부서이동" ∷ "보직변경" ∷ "징계처분" ∷ "사규개정" ∷ "법령"
    ∷ "복무" ∷ "인사" ∷ "근로기준" ∷ "취업규칙" ∷ "휴일" ∷ "휴무" ∷ "초과근무" ∷ "개인정보" ∷ "민감정보" ∷ "클라우드" ∷ "usb"
    ∷ "이메일" ∷ "외부전송" ∷ "개인정보유출" ∷ "마스킹" ∷ "암호화" ∷ "보안사고" ∷ "정보주체" ∷ "열람권" ∷ "정정권" ∷ "삭제권" ∷ "동의"
    ∷ "수집" ∷ "이용" ∷ "제공" ∷ "개인정보처리" ∷ "cctv" ∷ "영상정보" ∷ "익명처리" ∷ "가명처리" ∷ "성희롱" ∷ "성적" ∷ "언어적"
    ∷ "신체적" ∷ "시각적" ∷ "성적농담" ∷ "불쾌" ∷ "성적수치심" ∷ "성적굴욕감" ∷ "피해자" ∷ "가해자" ∷ "성희롱신고" ∷ "성희롱예방" ∷ "2차피해"
    ∷ "피해자보호" ∷ "괴롭힘" ∷ "직장내괴롭힘" ∷ "폭언" ∷ "폭행" ∷ "따돌림" ∷ "왕따" ∷ "업무배제" ∷ "업무외지시" ∷ "사적심부름" ∷ "인격모독"
    ∷ "괴롭힘신고" ∷ "괴롭힘예방" ∷ "우월적지위" ∷ "갑질" ∷ "장애인" ∷ "장애" ∷ "장애인식" ∷ "합리적편의" ∷ "차별금지" ∷ "장애인차별"
    ∷ "장애유형" ∷ "편견" ∷ "고정관념" ∷ "장애인고용" ∷ "장애인채용" ∷ "보조기기" ∷ "편의제공" ∷ "소스코드" ∷ "오픈소스" ∷ "라이선스"
    ∷ "api" ∷ "로그" ∷ "데이터" ∷ "클라우드보안" ∷ "인사정보" ∷ "민감정보처리" ∷ "ai" ∷ "외부ai" ∷ "보안점검" ∷ "취약점" ∷ "사이버보안"
    ∷ "저작권" ∷ "초상권" ∷ "github" ∷ "코드" ∷ "개발자" ∷ []

unfoldable pub edu_content_keywords : List String
edu_content_keywords =
    "교육내용" ∷ "교육자료" ∷ "교육규정" ∷ "학습내용" ∷ "강의내용" ∷ "교육과정" ∷ "커리큘럼" ∷ "4대교육" ∷ "법정교육" ∷ "의무교육"
    ∷ "정보보호교육" ∷ "보안교육" ∷ "컴플라이언스교육" ∷ "성희롱예방교육" ∷ "성희롱교육" ∷ "장애인식개선교육" ∷ "장애인식교육" ∷ "직장내괴롭힘예방교육"
    ∷ "괴롭힘예방교육" ∷ "개인정보보호교육" ∷ "개인정보교육" ∷ "교육이란" ∷ "교육이 뭐" ∷ "교육 설명" ∷ "무슨 교육" ∷ "어떤 교육" ∷ []

unfoldable pub edu_status_keywords : List String
edu_status_keywords =
    "수료" ∷ "이수" ∷ "미이수" ∷ "미수료" ∷ "수료율" ∷ "이수율" ∷ "진도" ∷ "진행률" ∷ "시청률" ∷ "완료율" ∷ "내 교육" ∷ "나의 교육"
    ∷ "내가 들은" ∷ "내가 수강" ∷ "교육현황" ∷ "수강현황" ∷ "학습현황" ∷ "안 들은" ∷ "안들은" ∷ "필수 미이수" ∷ "안한 교육" ∷ "안 한 교육"
    ∷ "데드라인" ∷ "마감" ∷ "곧 마감" ∷ "마감 임박" ∷ "이번 달" ∷ "이번달" ∷ "이달" ∷ "언제까지" ∷ "기한" ∷ "이번 주" ∷ "이번주"
    ∷ "금주" ∷ "이주" ∷ "할 일" ∷ "해야 할" ∷ "해야할" ∷ "해야 하는" ∷ "어디까지" ∷ "몇 퍼센트" ∷ "얼마나 했" ∷ []

unfoldable pub edu_resume_keywords : List String
edu_resume_keywords =
    "이어서" ∷ "이어보기" ∷ "이어 보기" ∷ "계속 보기" ∷ "계속보기" ∷ "끊긴" ∷ "끊어진" ∷ "중단" ∷ "멈춘" ∷ "멈춰진" ∷ "어디까지 봤"
    ∷ "어디서 끊" ∷ "마지막으로 본" ∷ "마지막 위치" ∷ "재생 위치" ∷ "시청 위치" ∷ "보던 거" ∷ "듣던 거" ∷ "다시 재생" ∷ "다시 틀어"
    ∷ "이어 재생" ∷ "이어 틀어" ∷ "보던 교육" ∷ "듣던 교육" ∷ "보던 강의" ∷ "듣던 강의" ∷ "다시 보고" ∷ "다시 듣고" ∷ "다시 보기"
    ∷ "다시 듣기" ∷ "최근에 본" ∷ "최근에 보던" ∷ "최근에 듣던" ∷ "최근 본" ∷ "최근 보던" ∷ "마지막에 본" ∷ "마지막에 보던" ∷ "마지막에 듣던"
    ∷ "마지막 본" ∷ "마지막 보던" ∷ "마지막에 들은" ∷ "마지막 듣던" ∷ []

unfoldable pub hr_personal_keywords : List String
hr_personal_keywords =
    "내 연차" ∷ "나의 연차" ∷ "연차 잔여" ∷ "연차 남은" ∷ "남은 연차" ∷ "잔여 연차" ∷ "연차 며칠" ∷ "연차 얼마" ∷ "연차 몇" ∷ "연차 확인"
    ∷ "연차 조회" ∷ "연차가 며칠" ∷ "연차가 얼마" ∷ "연차가 몇" ∷ "휴가 잔여" ∷ "휴가 남은" ∷ "내 휴가" ∷ "남은 휴가" ∷ "잔여 휴가"
    ∷ "휴가 며칠" ∷ "휴가 얼마" ∷ "휴가 몇" ∷ "휴가 확인" ∷ "휴가 조회" ∷ "휴가가 며칠" ∷ "휴가가 얼마" ∷ "휴가가 몇" ∷ "급여" ∷ "월급"
    ∷ "봉급" ∷ "내 급여" ∷ "급여명세" ∷ "근태" ∷ "출근" ∷ "퇴근" ∷ "내 근태" ∷ "근태현황" ∷ "복지" ∷ "복지포인트" ∷ "포인트 잔액"
    ∷ "내 포인트" ∷ "포인트 얼마" ∷ "포인트 조회" ∷ "포인트 확인" ∷ "식대" ∷ "식대 잔액" ∷ "식대 얼마" ∷ "식대 조회" ∷ "내 정보"
    ∷ "나의 정보" ∷ "내 현황" ∷ "나의 현황" ∷ "내가 얼마" ∷ "내 잔여" ∷ "나 몇 개" ∷ []

unfoldable pub leave_policy_keywords : List String
leave_policy_keywords =
    "연차규정" ∷ "휴가규정" ∷ "연차제도" ∷ "휴가제도" ∷ "연차 이월" ∷ "휴가 이월" ∷ "연차 기준" ∷ "연차가 뭐" ∷ "휴가가 뭐" ∷ "연차란"
    ∷ "휴가란" ∷ "연차 어떻게 계산" ∷ "휴가 어떻게 계산" ∷ "연차 정책" ∷ "휴가 정책" ∷ []

unfoldable pub quiz_start_keywords : List String
quiz_start_keywords =
    "퀴즈 시작" ∷ "퀴즈 시작해" ∷ "퀴즈 시작할" ∷ "퀴즈를 시작" ∷ "시험 시작" ∷ "테스트 시작" ∷ "퀴즈 풀" ∷ "퀴즈 치" ∷ "시험 치"
    ∷ "테스트 치" ∷ []

unfoldable pub quiz_submit_keywords : List String
quiz_submit_keywords =
    "퀴즈 제출" ∷ "답안 제출" ∷ "정답 제출" ∷ "채점해" ∷ "채점 해" ∷ "점수 확인" ∷ "제출할게" ∷ "제출합니다" ∷ "퀴즈 완료" ∷ "시험 완료"
    ∷ "테스트 완료" ∷ []

unfoldable pub quiz_generation_keywords : List String
quiz_generation_keywords =
    "퀴즈 생성" ∷ "문제 생성" ∷ "문항 생성" ∷ "퀴즈 만들" ∷ "문제 만들" ∷ "시험 만들" ∷ "퀴즈 출제" ∷ "문제 출제" ∷ []

unfoldable pub quiz_pending_keywords : List String
quiz_pending_keywords =
    "안 푼 퀴즈" ∷ "안푼 퀴즈" ∷ "미완료 퀴즈" ∷ "미응시 퀴즈" ∷ "남은 퀴즈" ∷ "남아있는 퀴즈" ∷ "안 본 시험" ∷ "안본 시험" ∷ "다시 풀어야"
    ∷ "재응시" ∷ "재시험" ∷ "다시 봐야" ∷ "풀어야 할 퀴즈" ∷ "봐야 할 시험" ∷ "응시해야 할" ∷ "퀴즈 현황" ∷ "시험 현황" ∷ "내 퀴즈"
    ∷ "나의 퀴즈" ∷ "퀴즈 목록" ∷ "시험 목록" ∷ "퀴즈 있" ∷ "시험 있" ∷ []

unfoldable pub quiz_context_keywords : List String
quiz_context_keywords = "퀴즈" ∷ "시험" ∷ "테스트" ∷ []

unfoldable pub hr_todo_keywords : List String
hr_todo_keywords =
    "hr 할 일" ∷ "인사 할 일" ∷ "hr 투두" ∷ "hr todo" ∷ "미완료 hr" ∷ "미완료 인사" ∷ "인사 업무" ∷ "연말정산" ∷ "성과 평가"
    ∷ "인사 평가" ∷ "서류 제출" ∷ "인사 서류" ∷ "hr 업무" ∷ []

unfoldable pub general_chat_keywords : List String
general_chat_keywords =
    "안녕" ∷ "ㅎㅎ" ∷ "ㅋㅋ" ∷ "날씨" ∷ "농담" ∷ "심심" ∷ "잘가" ∷ "반가워" ∷ "고마워" ∷ "감사" ∷ "수고" ∷ "뭐해" ∷ "머해"
    ∷ "하이" ∷ "헬로" ∷ "바이" ∷ "ㅇㅇ" ∷ "ㄴㄴ" ∷ "ㅎㅇ" ∷ []

unfoldable pub summary_keywords : List String
summary_keywords =
    "요약" ∷ "요약해" ∷ "요약해줘" ∷ "요약해주세요" ∷ "정리" ∷ "정리해" ∷ "정리해줘" ∷ "정리해주세요" ∷ "줄여" ∷ "줄여줘" ∷ "간단히"
    ∷ "핵심만" ∷ "한줄로" ∷ "한 줄로" ∷ "짧게" ∷ []

unfoldable pub system_help_keywords : List String
system_help_keywords =
    "사용법" ∷ "메뉴" ∷ "화면" ∷ "버튼" ∷ "기능" ∷ "어떻게 사용" ∷ "어디서" ∷ "어디에" ∷ "찾기" ∷ "검색하는 방법" ∷ "사용방법"
    ∷ "이용방법" ∷ "도움말" ∷ "헬프" ∷ "help" ∷ []

unfoldable pub edu_ambiguous_keywords : List String
edu_ambiguous_keywords = "교육" ∷ "강의" ∷ "수강" ∷ "학습" ∷ []

unfoldable pub edu_ambiguous_verbs : List String
edu_ambiguous_verbs = "알려" ∷ "알고" ∷ "확인" ∷ "조회" ∷ "보여" ∷ "뭐야" ∷ "뭔가요" ∷ "어떻게" ∷ "어때" ∷ []

unfoldable pub leave_ambiguous_keywords : List String
leave_ambiguous_keywords = "연차" ∷ "휴가" ∷ "휴일" ∷ "쉬는날" ∷ []

unfoldable pub leave_ambiguous_verbs : List String
leave_ambiguous_verbs = "알려" ∷ "알고" ∷ "확인" ∷ "조회" ∷ "보여" ∷ "뭐야" ∷ "뭔가요" ∷ "어떻게" ∷ "어때" ∷ "있" ∷ []

-- The set of `_is_boundary_b_ambiguous` and `_classify_by_keywords`.
unfoldable pub policy_clarifiers : List String
policy_clarifiers = "규정" ∷ "정책" ∷ "규칙" ∷ "지침" ∷ "제도" ∷ []

-- The alternatives of `QUESTION_ENDINGS`, which the pattern anchors at the end.
unfoldable pub question_endings : List String
question_endings =
    "나요" ∷ "하나요" ∷ "인가요" ∷ "ㄴ가요" ∷ "는지" ∷ "ㄹ까" ∷ "을까" ∷ "할까" ∷ "됩니까" ∷ "습니까" ∷ "입니까" ∷ "어야" ∷ "해야"
    ∷ "될까" ∷ "되나요" ∷ "건가요" ∷ "인지" ∷ "요?" ∷ "까?" ∷ "니?" ∷ "가?" ∷ []
